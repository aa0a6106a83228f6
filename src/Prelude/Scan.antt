-- ===== src/Prelude/Scan.antt =====
-- `fmt.Sscanf` with the verb "%d" into an int64; `none` is its error.
use vassago_sdk.Prelude.Texts.{Text}
use vassago_sdk.Prelude.Tests.{ltb, ltb→lt, leb, ◌==◌, if◌then◌else◌, Bool-cases}
use vassago_sdk.Prelude.Lists.{length, drop}
use vassago_sdk.Prelude.Int.{ℤ, pos, negsuc}
use vassago_sdk.Prelude.Decimal.{digits, format_nat, format_int}
use Prim.Native.Nat.{ℕ, zero, suc, ◌+◌, ◌-◌, ◌*◌, ◌/◌, ◌%◌, ◌^◌, ◌<◌}
use mathlib.Core.Path.{◌≡◌, refl, sym, ap, ◌∙◌}
use mathlib.Core.Logic.{inl, inr}
use mathlib.Core.Bool.{Bool, true, false, ◌&&◌, ◌||◌}
use mathlib.Core.Option.{Option, none, some}
use mathlib.Core.List.{[], ◌∷◌, ◌++◌, append_assoc, append-nil}
use native.Mathlib.Omega.{arith}

abbrev pub is_digit : ℕ → Bool
is_digit b = leb b'0' b && leb b b'9'

-- The length of a space at the front of a UTF-8 text, or 0; a newline is none.
abbrev pub space_width : Text → ℕ
space_width [] = 0
space_width (x ∷ xs) =
    if x == 32 || x == 9 || x == 11 || x == 12 || x == 13 then 1 else wide_space x xs
  where
    -- U+2000 to U+200A, U+2028, U+2029, U+202F and U+205F.
    general : ℕ → ℕ → Bool
    general y z =
        (y == 0x80 && ((leb 0x80 z && leb z 0x8a) || z == 0xa8 || z == 0xa9 || z == 0xaf))
        || (y == 0x81 && z == 0x9f)

    -- The spaces of two and of three bytes.
    wide_space : ℕ → Text → ℕ
    wide_space x [] = 0
    wide_space x (y ∷ []) = if x == 0xc2 && (y == 0x85 || y == 0xa0) then 2 else 0
    wide_space x (y ∷ z ∷ zs) =
        if x == 0xc2 && (y == 0x85 || y == 0xa0)
        then 2
        else if (x == 0xe2 && general y z)
            || (x == 0xe1 && y == 0x9a && z == 0x80)
            || (x == 0xe3 && y == 0x80 && z == 0x80)
        then 3
        else 0

abbrev pub starts_line : Text → Bool
starts_line [] = false
starts_line (x ∷ xs) = x == b'\n'

-- The text behind its spaces, of which there are at most as many as the fuel; a newline among
-- them is an error.
pub skip_space : ℕ → Text → Option Text
skip_space zero s = some s
skip_space (suc fuel) s = elim (starts_line s) [
  | true ↦ none
  | false ↦ elim (space_width s) [ zero ↦ some s | suc w ↦ skip_space fuel (drop (suc w) s) ]
]

-- The number of the digits at the front of a text, behind the number `n`.
pub scan_digits : ℕ → Text → ℕ
scan_digits n [] = n
scan_digits n (x ∷ xs) = elim (is_digit x) [
  | true ↦ scan_digits (n * 10 + (x - b'0')) xs
  | false ↦ n
]

abbrev negated : ℕ → ℤ
negated zero = pos 0
negated (suc n) = negsuc n

-- The number with its sign, if it is one of 64 bits.
abbrev in_range : Bool → ℕ → Option ℤ
in_range true n = if leb n (2 ^ 63) then some (negated n) else none
in_range false n = if ltb n (2 ^ 63) then some (pos n) else none

abbrev scan_unsigned : Bool → Text → Option ℤ
scan_unsigned negative [] = none
scan_unsigned negative (x ∷ xs) =
    if is_digit x then in_range negative (scan_digits 0 (x ∷ xs)) else none

abbrev scan_signed : Text → Option ℤ
scan_signed [] = none
scan_signed (x ∷ xs) =
    if x == b'-'
    then scan_unsigned true xs
    else if x == b'+'
    then scan_unsigned false xs
    else scan_unsigned false (x ∷ xs)

abbrev scanned : Option Text → Option ℤ
scanned none = none
scanned (some s) = scan_signed s

-- What is behind the number is not read.
unfoldable pub scan_int : Text → Option ℤ
unfolding skip_space scan_digits
scan_int s = scanned (skip_space (length s) s)

-- A byte of ASCII behind the space is no part of a space.
ascii-plain :
    (x : ℕ) (xs : Text)
    → 32 < x
    → x < 128
    → (starts_line (x ∷ xs) ≡ false) × (space_width (x ∷ xs) ≡ 0)
ascii-plain x [] h h' = ground arith
ascii-plain x (y ∷ []) h h' = ground arith
ascii-plain x (y ∷ z ∷ zs) h h' = ground arith

digit-IsDigit : (d : ℕ) → d < 10 → is_digit (b'0' + d) ≡ true
digit-IsDigit d h = ground arith

scan-digit :
    (n d m : ℕ) (rest : Text)
    → d < 10
    → m ≡ n * 10 + d
    → scan_digits n ((b'0' + d) ∷ rest) ≡ scan_digits m rest
unfolding scan_digits
scan-digit n d m rest h e =
    rw (scan_digits, digit-IsDigit d h) (ap (λ k. scan_digits k rest) (omega (arith, e)))

-- Reading on from the digits of a number is reading on from the number.
scan-digits :
    (f n : ℕ) (rest : Text) → n < f → scan_digits 0 (digits f n ++ rest) ≡ scan_digits n rest
unfolding digits
scan-digits zero n rest h = absurd (omega (arith, h))
scan-digits (suc f) n rest h = elim (Bool-cases (ltb n 10)) [
  | inl small ↦ rw small (scan-digit 0 n n rest (ltb→lt n 10 small) (omega arith))
  | inr big ↦ rw big (
      rw append_assoc (
        scan-digits f (n / 10) _ (ground arith)
        ∙ scan-digit (n / 10) (n % 10) n rest (omega arith) (omega arith)))
]

-- The first digit of a number.
digits-first :
    (f n : ℕ) → n < f → (x : ℕ) × (xs : Text) × (digits f n ≡ x ∷ xs) × (is_digit x ≡ true)
unfolding digits
digits-first zero n h = absurd (omega (arith, h))
digits-first (suc f) n h = elim (Bool-cases (ltb n 10)) [
  | inl small ↦ (b'0' + n, [], rw small refl, digit-IsDigit n (ltb→lt n 10 small))
  | inr big ↦
      let (x, xs, e, is) = digits-first f (n / 10) (ground arith) in
      (x, xs ++ (b'0' + n % 10) ∷ [], rw (big, e) refl, is)
]

-- A number of 64 bits that `format_int` wrote is read back.
abbrev pub IsInt64 : ℤ → Type 0
IsInt64 (pos n) = n < 2 ^ 63
IsInt64 (negsuc n) = n < 2 ^ 63

-- The digits of a number are read as the number, if it is in range.
scan-unsigned :
    (negative : Bool) (n : ℕ) → scan_unsigned negative (digits (suc n) n) ≡ in_range negative n
unfolding scan_digits
scan-unsigned negative n =
    let (x, xs, e, is) = digits-first (suc n) n (omega arith) in
    rw (e, is)
      (ap (in_range negative) (
        ap (scan_digits 0) (sym e ∙ sym (append-nil (digits (suc n) n)))
        ∙ scan-digits (suc n) n [] (omega arith)))

-- A text that starts with a byte of ASCII behind the space is read from its first byte on.
scan-signed : (x : ℕ) (xs : Text) → 32 < x → x < 128 → scan_int (x ∷ xs) ≡ scan_signed (x ∷ xs)
unfolding scan_int skip_space
scan-signed x xs h h' = let (e, e') = ascii-plain x xs h h' in rw (scan_int, skip_space, e, e') refl

unsigned-signed :
    (x : ℕ) (xs : Text) → is_digit x ≡ true → scan_signed (x ∷ xs) ≡ scan_unsigned false (x ∷ xs)
unsigned-signed x xs h = ground arith

pub scan-format_int : (n : ℤ) → IsInt64 n → scan_int (format_int n) ≡ some n
unfolding format_int format_nat
scan-format_int (pos n) h =
    let (x, xs, e, is) = digits-first (suc n) n (omega arith) in
    ap scan_int e
    ∙ scan-signed x xs (ground arith) (ground arith)
    ∙ unsigned-signed x xs is
    ∙ ap (scan_unsigned false) (sym e)
    ∙ scan-unsigned false n
    ∙ ground arith
scan-format_int (negsuc n) h =
    scan-signed b'-' _ (omega arith) (omega arith) ∙ scan-unsigned true (suc n) ∙ ground arith
