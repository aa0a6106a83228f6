-- ===== src/Prelude/Search.antt =====
-- What `index` and `last_index` find in a text.
use vassago_sdk.Prelude.Lists.{length, take, drop}
use vassago_sdk.Prelude.Texts.{Text, last_index, index, contains, has_last}
use Prim.Native.Nat.{ℕ, zero, suc, ◌<◌}
use mathlib.Core.Path.{◌≡◌, refl}
use mathlib.Core.Bool.{true, false}
use mathlib.Core.Option.{none, some}
use mathlib.Core.List.{[], ◌∷◌, ◌++◌}
use native.Mathlib.Omega.{arith}

module _ (b : ℕ) where
  pub last_index-lt : (s : Text) (i : ℕ) → last_index s b ≡ some i → i < length s
  unfolding last_index
  last_index-lt [] i h = cc
  last_index-lt (x ∷ xs) zero h = omega arith
  last_index-lt (x ∷ xs) (suc i) h = ground (arith, last_index-lt xs i)

  pub last_index-none : (s : Text) → last_index s b ≡ none → contains s b ≡ false
  unfolding last_index contains
  last_index-none [] h = refl
  last_index-none (x ∷ xs) h = ground (arith, last_index-none xs)

  -- There is no such byte behind the place that `last_index` gives.
  pub last_index_after :
      (s : Text) (i : ℕ) → last_index s b ≡ some i → contains (drop (suc i) s) b ≡ false
  unfolding last_index contains
  last_index_after [] i h = cc
  last_index_after (x ∷ xs) zero h = ground (arith, last_index-none xs)
  last_index_after (x ∷ xs) (suc i) h = ground (arith, last_index_after xs i)

  -- A text cut behind that place ends with the byte.
  pub last_index_ends :
      (s : Text) (i : ℕ) → last_index s b ≡ some i → has_last (take (suc i) s) b ≡ true
  unfolding last_index has_last
  last_index_ends [] i h = cc
  last_index_ends (x ∷ xs) zero h = ground arith
  last_index_ends (x ∷ []) (suc i) h = ground arith
  last_index_ends (x ∷ y ∷ ys) (suc i) h = ground (arith, last_index_ends (y ∷ ys) i)

  pub contains-append :
      (s t : Text) → contains (s ++ t) b ≡ false → (contains s b ≡ false) × (contains t b ≡ false)
  unfolding contains
  contains-append [] t h = (refl, h)
  contains-append (x ∷ xs) t h = ground (arith, contains-append xs t)

  pub has_last-contains : (s : Text) → has_last s b ≡ true → contains s b ≡ true
  unfolding has_last contains
  has_last-contains [] h = cc
  has_last-contains (x ∷ []) h = ground arith
  has_last-contains (x ∷ y ∷ ys) h = ground (arith, has_last-contains (y ∷ ys))

  pub index-split : (s : Text) (i : ℕ) → index s b ≡ some i → s ≡ take i s ++ b ∷ drop (suc i) s
  unfolding index
  index-split [] i h = cc
  index-split (x ∷ xs) zero h = ground arith
  index-split (x ∷ xs) (suc i) h = ground (arith, index-split xs i)

  pub index-lt : (s : Text) (i : ℕ) → index s b ≡ some i → i < length s
  unfolding index
  index-lt [] i h = cc
  index-lt (x ∷ xs) zero h = omega arith
  index-lt (x ∷ xs) (suc i) h = ground (arith, index-lt xs i)

  pub index_before : (s : Text) (i : ℕ) → index s b ≡ some i → contains (take i s) b ≡ false
  unfolding index contains
  index_before [] i h = cc
  index_before (x ∷ xs) zero h = refl
  index_before (x ∷ xs) (suc i) h = ground (arith, index_before xs i)

  pub index-none : (s : Text) → index s b ≡ none → contains s b ≡ false
  unfolding index contains
  index-none [] h = refl
  index-none (x ∷ xs) h = ground (arith, index-none xs)

  pub index-append : (s t : Text) → contains s b ≡ false → index (s ++ b ∷ t) b ≡ some (length s)
  unfolding index contains
  index-append [] t h = ground arith
  index-append (x ∷ xs) t h = ground (arith, index-append xs t)

  pub contains_middle : (s t : Text) → contains (s ++ b ∷ t) b ≡ true
  unfolding contains
  contains_middle [] t = ground arith
  contains_middle (x ∷ xs) t = ground (arith, contains_middle xs t)

  pub contains-none : (s : Text) → contains s b ≡ false → index s b ≡ none
  unfolding index contains
  contains-none [] h = refl
  contains-none (x ∷ xs) h = ground (arith, contains-none xs)

  pub contains-pos : (s : Text) → contains s b ≡ true → 0 < length s
  unfolding contains
  contains-pos [] h = cc
  contains-pos (x ∷ xs) h = omega arith
