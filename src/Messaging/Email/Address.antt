-- ===== src/Messaging/Email/Address.antt =====
-- `isValidEmail` decides an independent description of an address.
use vassago_sdk.Prelude.{
  suc, ◌+◌, ◌≤◌, ◌<◌, ◌≡◌, ◌↔◌, inl, inr, true, false, ◌∷◌, ◌++◌, some, arith, Option-cases, Text,
  contains, has_last, index, length, take, drop, length-append, drop-suc-append, length-take,
}
use vassago_sdk.Prelude.Search.{
  index-split, index-lt, index_before, index-none, index-append, contains_middle, contains-pos,
}
use vassago_sdk.Messaging.Email.{is_valid_email}

-- At least five bytes: a local part that is not empty and has no @, one @, and a domain that has a
-- dot and does not end in one.
pub record IsAddress (email : Text) : Type 0 where
  pub local : Text
  pub domain : Text
  pub splits : email ≡ local ++ b'@' ∷ domain
  pub one_at : contains local b'@' ≡ false
  pub local_pos : 0 < length local
  pub dotted : contains domain b'.' ≡ true
  pub no_end_dot : has_last domain b'.' ≡ false
  pub long : 5 ≤ length email

sound : (email : Text) → is_valid_email email ≡ true → IsAddress email
unfolding is_valid_email
sound email h = elim (Option-cases (index email b'@')) [
  | inl e ↦ cc (index-none b'@' email e)
  | inr (i, e) ↦ record {
    local = take i email;
    domain = drop (suc i) email;
    splits = index-split b'@' email i e;
    one_at = index_before b'@' email i e;
    local_pos = ground (arith, index-lt b'@' email i e, length-take i email);
    dotted = ground arith;
    no_end_dot = ground arith;
    long = ground arith;
  }
]

complete : (email : Text) → IsAddress email → is_valid_email email ≡ true
unfolding is_valid_email
complete email a =
    let found : index email b'@' ≡ some (length a.local) =
      rw a.splits (index-append b'@' a.local a.domain a.one_at) in
    let has : contains email b'@' ≡ true = rw a.splits (contains_middle b'@' a.local a.domain) in
    let tail : drop (suc (length a.local)) email ≡ a.domain =
      rw a.splits (drop-suc-append a.local b'@' a.domain) in
    let size : length email ≡ length a.local + suc (length a.domain) =
      rw a.splits (length-append a.local (b'@' ∷ a.domain)) in
    ground (arith, found, has, tail, size, contains-pos b'.' a.domain a.dotted)

-- `isValidEmail` accepts exactly the addresses.
pub is_valid_email_iff : (email : Text) → (is_valid_email email ≡ true) ↔ IsAddress email
is_valid_email_iff email = (sound email, complete email)
