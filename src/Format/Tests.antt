-- ===== src/Format/Tests.antt =====
-- The formatting theorems at concrete messages, and runs of the functions.
use vassago_sdk.Prelude.{
  ◌⊎◌, ◌<◌, [], ℕ, zero, suc, ◌+◌, ◌≤◌, ◌≡◌, refl, false, List, [], ◌∷◌, ◌++◌, some, arith, Text,
  codes, text_eq, length, concat, All, contains, last_index,
}
use vassago_sdk.Format.Split.{Splits, split_message-Splits}
use vassago_sdk.Format.Platforms.{
  unprefixed, format_message_for_platform_lem, split_message_for_platform_lem,
}
use vassago_sdk.Format.Oversize.{split_message_too_long}
use vassago_sdk.Format.{
  get_platform_limits, compose_platform_context, format_message_for_platform, chunk_end, split_loop,
  split_message, split_message_for_platform,
}

-- `n` times the letter a.
abbrev letters : ℕ → Text
letters zero = []
letters (suc n) = b'a' ∷ letters n

context_test :
    compose_platform_context (codes "discord") (codes "dev") (codes "ann")
    ≡ codes "[Message from ann on Discord in #dev]"
unfolding compose_platform_context text_eq
context_test = refl

split_test : split_message (codes "ab\ncde\nf") 5 ≡ some (codes "ab\n" ∷ codes "cde\nf" ∷ [])
unfolding split_message split_loop chunk_end last_index
split_test = refl

split_message-Splits_example :
    (cs : List Text) × (split_message (codes "ab\ncde\nf") 5 ≡ some cs)
    × Splits 5 (codes "ab\ncde\nf") cs
split_message-Splits_example = split_message-Splits (codes "ab\ncde\nf") 5 (omega arith)

format_message_for_platform_example :
    let limit = (get_platform_limits (codes "discord")).max_message_len in
    (kept dropped mark : Text) × (letters 2500 ≡ kept ++ dropped)
    × (format_message_for_platform (codes "discord") (letters 2500) ≡ kept ++ mark)
    × (length kept ≤ limit)
    × (length (kept ++ mark) ≤ limit + 16)
    × (((dropped ≡ []) × (mark ≡ []))
        ⊎ ((length kept ≡ limit) × (0 < length dropped) × (mark ≡ codes "\n... (truncated)")))
format_message_for_platform_example =
    format_message_for_platform_lem (codes "discord") (letters 2500)

split_message_for_platform_example :
    let l = get_platform_limits (codes "discord") in
    (out : List Text) × (split_message_for_platform (codes "discord") (letters 2500) ≡ some out)
    × (concat (unprefixed (length l.split_prefix) out) ≡ letters 2500)
    × All (λ c. length c ≤ l.max_message_len + length l.split_prefix) out
split_message_for_platform_example = split_message_for_platform_lem (codes "discord") (letters 2500)

length-letters : (n : ℕ) → length (letters n) ≡ n
length-letters zero = refl
length-letters (suc n) = omega (arith, length-letters n)

contains-letters : (n : ℕ) → contains (letters n) b'\n' ≡ false
unfolding contains
contains-letters zero = refl
contains-letters (suc n) = contains-letters n

split_message_too_long_example :
    (out : List Text) × (split_message_for_platform (codes "discord") (letters 4000) ≡ some out)
    × ¬ All (λ c. length c ≤ (get_platform_limits (codes "discord")).max_message_len) out
unfolding get_platform_limits text_eq
split_message_too_long_example =
    split_message_too_long (codes "discord") (letters 4000) (omega arith) (contains-letters 4000)
      (omega (arith, length-letters 4000))
