-- ===== src/Prelude/Lists.antt =====
-- Lists measured and cut by native numbers, under the library's names.
use Prim.Native.Nat.{ℕ, zero, suc, ◌+◌, ◌-◌, ◌≤◌, min}
use mathlib.Core.Path.{◌≡◌, refl, ap}
use mathlib.Core.Logic.{inl, inr}
use vassago_sdk.Prelude.Tests.{Bool-cases}
use mathlib.Core.Bool.{Bool, true, false}
use mathlib.Core.List.{List, [], ◌∷◌, ◌++◌, append_assoc}
use native.Mathlib.Nat.{zero-add, suc-add}
use native.Mathlib.Omega.{arith}

module _ {ℓ} {A : Type ℓ} where
  abbrev pub length : List A → ℕ
  length [] = 0
  length (x ∷ xs) = suc (length xs)

  abbrev pub take : ℕ → List A → List A
  take zero xs = []
  take (suc n) [] = []
  take (suc n) (x ∷ xs) = x ∷ take n xs

  abbrev pub drop : ℕ → List A → List A
  drop zero xs = xs
  drop (suc n) [] = []
  drop (suc n) (x ∷ xs) = drop n xs

  abbrev pub concat : List (List A) → List A
  concat [] = []
  concat (xs ∷ xss) = xs ++ concat xss

  abbrev pub is_nil : List A → Bool
  is_nil [] = true
  is_nil (x ∷ xs) = false

  -- The members that pass a Boolean test, in order.
  abbrev pub keep_if : (A → Bool) → List A → List A
  keep_if p [] = []
  keep_if p (x ∷ xs) = elim (p x) [ true ↦ x ∷ keep_if p xs | false ↦ keep_if p xs ]

  -- A predicate of every member.
  abbrev pub All {κ} : (A → Type κ) → List A → Type κ
  All P [] = Unit
  All P (x ∷ xs) = P x × All P xs

  pub length-append : (xs ys : List A) → length (xs ++ ys) ≡ length xs + length ys
  length-append [] ys = omega arith
  length-append (x ∷ xs) ys = omega (arith, length-append xs ys)

  pub take-append-drop : (n : ℕ) (xs : List A) → take n xs ++ drop n xs ≡ xs
  take-append-drop zero xs = refl
  take-append-drop (suc n) [] = refl
  take-append-drop (suc n) (x ∷ xs) = ap (◌∷◌ x) (take-append-drop n xs)

  pub length-take : (n : ℕ) (xs : List A) → length (take n xs) ≡ min n (length xs)
  length-take zero xs = omega arith
  length-take (suc n) [] = omega arith
  length-take (suc n) (x ∷ xs) = omega (arith, length-take n xs)

  pub length-drop : (n : ℕ) (xs : List A) → length (drop n xs) ≡ length xs - n
  length-drop zero xs = omega arith
  length-drop (suc n) [] = omega arith
  length-drop (suc n) (x ∷ xs) = omega (arith, length-drop n xs)

  pub take_all : (n : ℕ) (xs : List A) → length xs ≤ n → take n xs ≡ xs
  take_all zero [] h = refl
  take_all zero (x ∷ xs) h = absurd (omega arith)
  take_all (suc n) [] h = refl
  take_all (suc n) (x ∷ xs) h = ap (◌∷◌ x) (take_all n xs (omega arith))

  pub take-append : (xs ys : List A) → take (length xs) (xs ++ ys) ≡ xs
  take-append [] ys = refl
  take-append (x ∷ xs) ys = ap (◌∷◌ x) (take-append xs ys)

  pub drop-append : (xs ys : List A) → drop (length xs) (xs ++ ys) ≡ ys
  drop-append [] ys = refl
  drop-append (x ∷ xs) ys = drop-append xs ys

  pub concat-append : (xss yss : List (List A)) → concat (xss ++ yss) ≡ concat xss ++ concat yss
  concat-append [] yss = refl
  concat-append (xs ∷ xss) yss = rw (concat-append xss yss, append_assoc)

  pub All-append {κ} : (P : A → Type κ) (xs ys : List A) → All P xs → All P ys → All P (xs ++ ys)
  All-append P [] ys h k = k
  All-append P (x ∷ xs) ys h k = (h.0, All-append P xs ys h.1 k)

  pub All-map {κ μ} :
      (P : A → Type κ) (Q : A → Type μ) (xs : List A) → ((x : A) → P x → Q x) → All P xs → All Q xs
  All-map P Q [] f h = tt
  All-map P Q (x ∷ xs) f h = (f x h.0, All-map P Q xs f h.1)

  take-nil : (n : ℕ) → take n [] ≡ []
  take-nil zero = refl
  take-nil (suc n) = refl

  pub take-take : (n m : ℕ) (xs : List A) → n ≤ m → take n (take m xs) ≡ take n xs
  take-take zero m xs h = refl
  take-take (suc n) zero xs h = absurd (omega arith)
  take-take (suc n) (suc m) [] h = refl
  take-take (suc n) (suc m) (x ∷ xs) h = ap (◌∷◌ x) (take-take n m xs (omega arith))

  pub drop-take : (n m : ℕ) (xs : List A) → drop n (take (n + m) xs) ≡ take m (drop n xs)
  drop-take zero m xs = rw zero-add
  drop-take (suc n) m [] = rw (take-nil (suc n + m), take-nil m)
  drop-take (suc n) m (x ∷ xs) = rw suc-add (drop-take n m xs)

  pub drop-suc-append :
      (xs : List A) (y : A) (ys : List A) → drop (suc (length xs)) (xs ++ y ∷ ys) ≡ ys
  drop-suc-append [] y ys = refl
  drop-suc-append (x ∷ xs) y ys = drop-suc-append xs y ys

  pub keep_if_yes :
      (p : A → Bool) (x : A) (xs : List A) → p x ≡ true → keep_if p (x ∷ xs) ≡ x ∷ keep_if p xs
  keep_if_yes p x xs e = rw (e, keep_if) refl

  pub keep_if_no :
      (p : A → Bool) (x : A) (xs : List A) → p x ≡ false → keep_if p (x ∷ xs) ≡ keep_if p xs
  keep_if_no p x xs e = rw (e, keep_if) refl

  pub keep_if-append :
      (p : A → Bool) (xs ys : List A) → keep_if p (xs ++ ys) ≡ keep_if p xs ++ keep_if p ys
  keep_if-append p [] ys = refl
  keep_if-append p (x ∷ xs) ys = elim (Bool-cases (p x)) [
    | inl e ↦
        rw (keep_if_yes p x xs e, keep_if_yes p x (xs ++ ys) e)
          (ap (◌∷◌ x) (keep_if-append p xs ys))
    | inr e ↦ rw (keep_if_no p x xs e, keep_if_no p x (xs ++ ys) e) (keep_if-append p xs ys)
  ]

  -- Two tests one after the other, in either order.
  pub keep_if_comm :
      (p q : A → Bool) (xs : List A) → keep_if p (keep_if q xs) ≡ keep_if q (keep_if p xs)
  keep_if_comm p q [] = refl
  keep_if_comm p q (x ∷ xs) = elim (Bool-cases (p x)) [
    | inl a ↦ elim (Bool-cases (q x)) [
      | inl b ↦
          rw (keep_if_yes p x xs a, keep_if_yes q x xs b)
            (rw (keep_if_yes p x (keep_if q xs) a, keep_if_yes q x (keep_if p xs) b)
              (ap (◌∷◌ x) (keep_if_comm p q xs)))
      | inr b ↦
          rw (keep_if_yes p x xs a, keep_if_no q x xs b)
            (rw (keep_if_no q x (keep_if p xs) b) (keep_if_comm p q xs))
    ]
    | inr a ↦ elim (Bool-cases (q x)) [
      | inl b ↦
          rw (keep_if_no p x xs a, keep_if_yes q x xs b)
            (rw (keep_if_no p x (keep_if q xs) a) (keep_if_comm p q xs))
      | inr b ↦ rw (keep_if_no p x xs a, keep_if_no q x xs b) (keep_if_comm p q xs)
    ]
  ]

  pub drop_all : (n : ℕ) (xs : List A) → length xs ≤ n → drop n xs ≡ []
  drop_all zero [] h = refl
  drop_all zero (x ∷ xs) h = absurd (omega arith)
  drop_all (suc n) [] h = refl
  drop_all (suc n) (x ∷ xs) h = drop_all n xs (omega arith)
