-- ===== src/Format/Platforms.antt =====
-- What the platform tables, the truncation and the splitting promise for every platform.
use vassago_sdk.Prelude.{
  ℕ, zero, suc, sym, ◌⊎◌, append-nil, ◌+◌, ◌≤◌, ◌<◌, ◌≡◌, ◌↔◌, refl, ap, ◌∙◌, inl, inr, true, not,
  List, [], ◌∷◌, ◌++◌, map, none, some, arith, leb, if◌then◌else◌, Bool-cases, Text, codes, member,
  length, take, drop, concat, is_nil, All, length-take, length-append, drop-append, leb→le,
}
use vassago_sdk.Format.Split.{Splits, last, split_message-Splits, Splits-concat, Splits-fits}
use vassago_sdk.Format.{
  platform_limits_map, get_platform_limits, validate_platform, format_message_for_platform,
  prefix_rest, split_message_for_platform,
}

-- Every platform, known or not, has room for at least one byte.
pub max_message_len_pos : (platform : Text) → 0 < (get_platform_limits platform).max_message_len
unfolding get_platform_limits
max_message_len_pos platform = ground arith

-- `ValidatePlatform` accepts exactly the platforms that have an entry of their own in the table
-- of limits.
validate_platform-member :
    (platform : Text)
    → (validate_platform platform ≡ none)
      ↔ (member platform (map (λ e. e.0) platform_limits_map) ≡ true)
unfolding validate_platform member
validate_platform-member platform = ground arith

cut_or_left :
    (platform message : Text)
    → let m = (get_platform_limits platform).max_message_len in
      (length message ≤ m → format_message_for_platform platform message ≡ message)
      × (m < length message
          → format_message_for_platform platform message
            ≡ take m message ++ codes "\n... (truncated)")
unfolding format_message_for_platform
cut_or_left platform message = (λ h. ground arith, λ h. ground arith)

-- A message is its first `n` bytes and the others.
take-append-drop : (n : ℕ) (s : Text) → s ≡ take n s ++ drop n s
take-append-drop zero s = refl
take-append-drop (suc n) [] = refl
take-append-drop (suc n) (x ∷ xs) = ap (◌∷◌ x) (take-append-drop n xs)

-- On every platform, email with its own branch included, what comes out is a first part of the
-- message, of at most the platform's limit, and a mark, together at most 16 bytes longer than the
-- limit: the whole message and no mark, or a part as long as the limit of a longer message and the
-- mark of a truncation.
pub format_message_for_platform_lem :
    (platform message : Text)
    → let limit = (get_platform_limits platform).max_message_len in
      (kept dropped mark : Text) × (message ≡ kept ++ dropped)
      × (format_message_for_platform platform message ≡ kept ++ mark)
      × (length kept ≤ limit)
      × (length (kept ++ mark) ≤ limit + 16)
      × (((dropped ≡ []) × (mark ≡ []))
          ⊎ ((length kept ≡ limit) × (0 < length dropped) × (mark ≡ codes "\n... (truncated)")))
format_message_for_platform_lem platform message =
    let limit = (get_platform_limits platform).max_message_len in
    let (left, cut) = cut_or_left platform message in
    elim (Bool-cases (leb (length message) limit)) [
      | inl fits ↦
          let short : length message ≤ limit = leb→le _ _ fits in
          (
            message,
            [],
            [],
            sym (append-nil message),
            left short ∙ sym (append-nil message),
            short,
            rw (append-nil message) (omega (arith, short)),
            inl (refl, refl),
          )
      | inr no_fit ↦
          let long : limit < length message = ground (arith, no_fit) in
          let at_limit : length (take limit message) ≡ limit =
            omega (arith, long, length-take limit message) in
          let parts = take-append-drop limit message in
          (
            take limit message,
            drop limit message,
            codes "\n... (truncated)",
            parts,
            cut long,
            omega (arith, at_limit),
            omega (arith, at_limit, length-append (take limit message) (codes "\n... (truncated)")),
            inr (
              at_limit,
              omega (
                arith,
                long,
                at_limit,
                ap length parts,
                length-append (take limit message) (drop limit message),
              ),
              refl,
            ),
          )
    ]

-- The chunks with `n` bytes taken off the front of each but the first.
abbrev pub unprefixed : ℕ → List Text → List Text
unprefixed n [] = []
unprefixed n (c ∷ cs) = c ∷ map (drop n) cs

abbrev pub prefixed : Text → Text → Text
prefixed p d = if not (is_nil p) then p ++ d else d

pub prefixed_lem : (p d : Text) → prefixed p d ≡ p ++ d
prefixed_lem [] d = refl
prefixed_lem (x ∷ p) d = refl

drop-prefixed : (p : Text) (cs : List Text) → map (drop (length p)) (map (prefixed p) cs) ≡ cs
drop-prefixed p [] = refl
drop-prefixed p (c ∷ cs) = rw (prefixed_lem p c, drop-append p c) (ap (◌∷◌ c) (drop-prefixed p cs))

unprefixed-prefix_rest : (p : Text) (cs : List Text) → unprefixed (length p) (prefix_rest p cs) ≡ cs
unprefixed-prefix_rest p [] = refl
unprefixed-prefix_rest p (c ∷ cs) = ap (◌∷◌ c) (drop-prefixed p cs)

prefixed-fits :
    (m : ℕ) (p : Text) (cs : List Text)
    → All (λ c. length c ≤ m) cs
    → All (λ c. length c ≤ m + length p) (map (prefixed p) cs)
prefixed-fits m p [] h = tt
prefixed-fits m p (c ∷ cs) h =
    (rw (prefixed_lem p c) (omega (arith, length-append p c, h.0)), prefixed-fits m p cs h.1)

prefix_rest-fits :
    (m : ℕ) (p : Text) (cs : List Text)
    → All (λ c. length c ≤ m) cs
    → All (λ c. length c ≤ m + length p) (prefix_rest p cs)
prefix_rest-fits m p [] h = tt
prefix_rest-fits m p (c ∷ cs) h = (omega (arith, h.0), prefixed-fits m p cs h.1)

-- `SplitMessageForPlatform` is `splitMessage` at the platform's limit with the prefix put before
-- all chunks but the first.
pub split_message_for_platform-Splits :
    (platform message : Text)
    → let l = get_platform_limits platform in
      (cs : List Text) × (split_message_for_platform platform message
        ≡ some (prefix_rest l.split_prefix cs))
      × Splits l.max_message_len message cs
unfolding split_message_for_platform
split_message_for_platform-Splits platform message =
    let l = get_platform_limits platform in
    let (cs, e, h) =
      split_message-Splits message l.max_message_len (max_message_len_pos platform) in
    elim (Bool-cases (leb (length message) l.max_message_len)) [
      | inl short ↦ (message ∷ [], rw short refl, last (leb→le _ _ short))
      | inr long ↦ (cs, rw (long, e) refl, h)
    ]

-- On every platform the splitting ends; with the prefixes taken off, the chunks are the message
-- again; and no chunk is longer than the limit and the prefix together.
pub split_message_for_platform_lem :
    (platform message : Text)
    → let l = get_platform_limits platform in
      (out : List Text) × (split_message_for_platform platform message ≡ some out)
      × (concat (unprefixed (length l.split_prefix) out) ≡ message)
      × All (λ c. length c ≤ l.max_message_len + length l.split_prefix) out
split_message_for_platform_lem platform message =
    let l = get_platform_limits platform in
    let (cs, e, h) = split_message_for_platform-Splits platform message in
    (
      prefix_rest l.split_prefix cs,
      e,
      ap concat (unprefixed-prefix_rest l.split_prefix cs) ∙ Splits-concat h,
      prefix_rest-fits l.max_message_len l.split_prefix cs (Splits-fits h),
    )
