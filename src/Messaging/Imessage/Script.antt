-- ===== src/Messaging/Imessage/Script.antt =====
-- buildScript of messaging/imessage_adapter.go, and what a reader of the script finds in it.
use vassago_sdk.Prelude.{
  ℕ, ◌==◌, ==_iff, ◌≡◌, refl, Bool, true, false, Bool-cases, inl, inr, [], ◌∷◌, ◌++◌, Option, none,
  some, if◌then◌else◌, Text, codes, has_prefix, contains, arith, ◌↔◌, suc, ◌≤◌, ◌+◌, length,
  length-append, ap,
}

-- `strings.ReplaceAll` of one byte.
unfoldable pub replace_byte : ℕ → Text → Text → Text
replace_byte b new [] = []
replace_byte b new (x ∷ xs) =
    let rest = replace_byte b new xs in if x == b then new ++ rest else x ∷ rest

unfoldable pub escape : Text → Text
unfolding replace_byte
escape message = replace_byte b'"' (codes "\\\"") (replace_byte b'\\' (codes "\\\\") message)

abbrev script : Text → Text → Text → Text
script message kind target =
    codes "tell application \"Messages\" to send \""
    ++ (escape message ++ (codes "\" to " ++ (kind ++ (codes " \"" ++ (target ++ codes "\"")))))

-- `buildScript`
unfoldable pub build_script : Text → Text → Text
unfolding escape
build_script target message =
    if has_prefix target (codes "chat:")
    then script message (codes "chat") target
    else script message (codes "buddy") target

abbrev one_more : ℕ → Option (Text × Text) → Option (Text × Text)
one_more x none = none
one_more x (some (t, rest)) = some (x ∷ t, rest)

-- A string literal as AppleScript reads it, from behind its opening quote: the text, and what
-- comes behind the closing quote. The flag says that the byte in front was a backslash.
pub read_literal : Bool → Text → Option (Text × Text)
read_literal escaped [] = none
read_literal true (x ∷ xs) = one_more x (read_literal false xs)
read_literal false (x ∷ xs) = elim (x == b'"') [
  | true ↦ some ([], xs)
  | false ↦ elim (x == b'\\') [
    | true ↦ read_literal true xs
    | false ↦ one_more x (read_literal false xs)
  ]
]

-- A literal that holds the escaped message is read as the message, whatever follows it.
read_literal-escape :
    (message rest : Text)
    → read_literal false (escape message ++ b'"' ∷ rest) ≡ some (message, rest)
unfolding escape read_literal
read_literal-escape [] rest = refl
read_literal-escape (x ∷ xs) rest = elim (Bool-cases (x == b'\\')) [
  | inl is_backslash ↦ rw ((==_iff x b'\\').0 is_backslash) (rw (read_literal-escape xs rest) refl)
  | inr other ↦ elim (Bool-cases (x == b'"')) [
    | inl is_quote ↦ rw ((==_iff x b'"').0 is_quote) (rw (read_literal-escape xs rest) refl)
    | inr plain ↦ ground (arith, read_literal-escape xs rest)
  ]
]

-- A text with neither a quote nor a backslash is read as it is.
read_literal-plain :
    (s rest : Text)
    → contains s b'"' ≡ false
    → contains s b'\\' ≡ false
    → read_literal false (s ++ b'"' ∷ rest) ≡ some (s, rest)
unfolding read_literal contains
read_literal-plain [] rest h k = refl
read_literal-plain (x ∷ xs) rest h k = ground (arith, read_literal-plain xs rest)

-- How much a reading has, its closing quote included.
abbrev size : Option (Text × Text) → ℕ
size none = 0
size (some (t, rest)) = suc (length t + length rest)

size-one_more : (x : ℕ) (o : Option (Text × Text)) → size (one_more x o) ≤ suc (size o)
size-one_more x none = omega arith
size-one_more x (some (t, rest)) = omega arith

-- A reading has at most as much as what was read.
size-read_literal : (escaped : Bool) (s : Text) → size (read_literal escaped s) ≤ length s
unfolding read_literal
size-read_literal escaped [] = omega arith
size-read_literal true (x ∷ xs) =
    omega (arith, size-one_more x (read_literal false xs), size-read_literal false xs)
size-read_literal false (x ∷ xs) = elim (Bool-cases (x == b'"')) [
  | inl quote ↦ rw (quote, read_literal) (omega arith)
  | inr plain ↦ elim (Bool-cases (x == b'\\')) [
    | inl backslash ↦ rw (plain, backslash, read_literal) (omega (arith, size-read_literal true xs))
    | inr other ↦
        rw (plain, other, read_literal)
          (omega (arith, size-one_more x (read_literal false xs), size-read_literal false xs))
  ]
]

empty_reading :
    (s : Text) (x : ℕ) (t : Text)
    → ◌≡◌ {A = Option (Text × Text)} (some ([], s)) (some (x ∷ t, []))
    → ⊥
empty_reading s x t h = cc

one_more-some :
    (x : ℕ) (o : Option (Text × Text)) (t : Text)
    → one_more x o ≡ some (x ∷ t, [])
    → o ≡ some (t, [])
one_more-some x none t h = cc
one_more-some x (some r) t h = cc

-- Only a text with neither a quote nor a backslash is read as it is.
plain-read_literal :
    (s : Text)
    → read_literal false (s ++ codes "\"") ≡ some (s, [])
    → (contains s b'"' ≡ false) × (contains s b'\\' ≡ false)
unfolding read_literal contains
plain-read_literal [] h = (refl, refl)
plain-read_literal (x ∷ xs) h = elim (Bool-cases (x == b'"')) [
  | inl quote ↦ absurd (empty_reading (xs ++ codes "\"") x xs (rw (quote, read_literal) at h))
  | inr plain ↦ elim (Bool-cases (x == b'\\')) [
    | inl backslash ↦ absurd (
        omega (
          arith,
          ap size (rw (plain, backslash, read_literal) at h),
          size-read_literal true (xs ++ codes "\""),
          length-append xs (codes "\""),
        ))
    | inr other ↦
        let (a, b) =
          plain-read_literal xs (one_more-some x _ xs (rw (plain, other, read_literal) at h)) in
        rw (plain, other, contains) (a, b)
  ]
]

-- For every target and message, the script is the command around two literals. The first is read as
-- the message, whatever it is; the second is read as the target, to the end of the script, exactly
-- if the target has neither a quote nor a backslash.
pub build_script_lem :
    (target message : Text)
    → (kind rest : Text) × (build_script target message
        ≡ codes "tell application \"Messages\" to send \"" ++ rest)
      × (read_literal false rest
          ≡ some (message, codes " to " ++ (kind ++ (codes " \"" ++ (target ++ codes "\"")))))
      × (kind ≡ (if has_prefix target (codes "chat:") then codes "chat" else codes "buddy"))
      × ((read_literal false (target ++ codes "\"") ≡ some (target, []))
          ↔ ((contains target b'"' ≡ false) × (contains target b'\\' ≡ false)))
unfolding build_script
build_script_lem target message =
    let reads : (read_literal false (target ++ codes "\"") ≡ some (target, []))
        ↔ ((contains target b'"' ≡ false) × (contains target b'\\' ≡ false)) =
      (plain-read_literal target, λ (h, k). read_literal-plain target [] h k) in
    elim (Bool-cases (has_prefix target (codes "chat:"))) [
      | inl chat ↦
          (codes "chat", _, rw chat refl, read_literal-escape message _, rw chat refl, reads)
      | inr buddy ↦
          (codes "buddy", _, rw buddy refl, read_literal-escape message _, rw buddy refl, reads)
    ]
