-- ===== src/Prelude/Texts.antt =====
-- Go strings as lists of bytes, with the functions of package strings that the source calls.
use Prim.Native.Char.{code}
use Prim.Native.Nat.{ℕ, suc, compare, Ordering}
use Prim.Native.String.{String}
use mathlib.Core.Path.{◌≡◌, refl, sym}
use mathlib.Core.Logic.{◌↔◌, ◌⊎◌, inl, inr}
use mathlib.Core.Logic.Or
use mathlib.Core.Bool.{Bool, true, false, ◌&&◌, ◌||◌, Bool-set}
use mathlib.Core.Option.{Option, none, some}
use mathlib.Core.List.{List, [], ◌∷◌, ◌++◌, Mem, mem-cons, not-mem-nil}
use native.Mathlib.Omega.{arith}

abbrev same_byte : ℕ → ℕ → Bool
same_byte a b = elim (compare a b) [ Ordering.eq ↦ true | _ ↦ false ]

-- A Go string: its bytes.
abbrev pub Text : Type 0
Text = List ℕ

-- The bytes of an ASCII literal.
abbrev pub codes : String → Text
codes String.[] = []
codes (String.◌∷◌ c s) = code c ∷ codes s

-- `a == b` on strings.
unfoldable pub text_eq : Text → Text → Bool
text_eq [] [] = true
text_eq (x ∷ xs) (y ∷ ys) = same_byte x y && text_eq xs ys
text_eq _ _ = false

pub text_eq_iff : (s t : Text) → (text_eq s t ≡ true) ↔ (s ≡ t)
unfolding text_eq
text_eq_iff (x ∷ xs) (y ∷ ys) = ground (arith, text_eq_iff xs ys)
text_eq_iff _ _ = ground arith

-- A loop that looks for one text in a list of texts.
unfoldable pub member : Text → List Text → Bool
member t [] = false
member t (x ∷ xs) = text_eq x t || member t xs

pub member→Mem : (t : Text) (xs : List Text) → member t xs ≡ true → Mem t xs
unfolding member
member→Mem t [] h = cc
member→Mem t (x ∷ xs) h = elim (text_eq_cases x t) [
  | inl e ↦ mem-cons.1 (Or.inl (sym ((text_eq_iff x t).0 e)))
  | inr e ↦ mem-cons.1 (Or.inr (member→Mem t xs (rw e at h)))
]
  where
    text_eq_cases : (s t : Text) → (text_eq s t ≡ true) ⊎ (text_eq s t ≡ false)
    text_eq_cases s t = ground arith

pub Mem→member : (t : Text) (xs : List Text) → Mem t xs → member t xs ≡ true
unfolding member
Mem→member t [] h = absurd (not-mem-nil h)
Mem→member t (x ∷ xs) h =
    Or.elim (λ p q. Bool-set _ _ p q) (mem-cons.0 h) (λ e. ground (arith, text_eq_iff x t, sym e))
      (λ m. ground (arith, Mem→member t xs m))

-- `strings.HasPrefix`
unfoldable pub has_prefix : Text → Text → Bool
has_prefix s [] = true
has_prefix [] (y ∷ ys) = false
has_prefix (x ∷ xs) (y ∷ ys) = same_byte x y && has_prefix xs ys

pub has_prefix-append : (p s : Text) → has_prefix (p ++ s) p ≡ true
unfolding has_prefix
has_prefix-append [] s = refl
has_prefix-append (x ∷ p) s = ground (arith, has_prefix-append p s)

-- One place further on.
abbrev next : Option ℕ → Option ℕ
next none = none
next (some i) = some (suc i)

-- `strings.Index` of one byte; `none` is -1.
unfoldable pub index : Text → ℕ → Option ℕ
index [] b = none
index (x ∷ xs) b = elim (same_byte x b) [ true ↦ some 0 | false ↦ next (index xs b) ]

abbrev later : Bool → Option ℕ → Option ℕ
later here (some i) = some (suc i)
later true none = some 0
later false none = none

-- `strings.LastIndex` of one byte; `none` is -1.
unfoldable pub last_index : Text → ℕ → Option ℕ
last_index [] b = none
last_index (x ∷ xs) b = later (same_byte x b) (last_index xs b)

-- `strings.Contains` of one byte.
unfoldable pub contains : Text → ℕ → Bool
contains [] b = false
contains (x ∷ xs) b = same_byte x b || contains xs b

-- `strings.HasSuffix` of one byte.
unfoldable pub has_last : Text → ℕ → Bool
has_last [] b = false
has_last (x ∷ []) b = same_byte x b
has_last (x ∷ y ∷ ys) b = has_last (y ∷ ys) b
