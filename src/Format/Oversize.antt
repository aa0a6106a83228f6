-- ===== src/Format/Oversize.antt =====
-- The prefix of `SplitMessageForPlatform` comes on top of chunks that already fill the limit.
use vassago_sdk.Prelude.{
  ◌∙◌, ℕ, ◌+◌, ◌≤◌, ◌<◌, ◌≡◌, refl, ap, inl, inr, false, List, [], ◌∷◌, some, arith, Text, contains,
  length, All, length-append,
}
use vassago_sdk.Prelude.Search.{contains-append, has_last-contains}
use vassago_sdk.Format.Split.{Cut, Splits, last, cut}
use vassago_sdk.Format.Platforms.{
  max_message_len_pos, prefixed, prefixed_lem, split_message_for_platform-Splits,
}
use vassago_sdk.Format.{get_platform_limits, prefix_rest, split_message_for_platform}

-- A piece of a text with no newline is cut at the full `m` bytes.
Cut-length : {m : ℕ} {c rest : Text} → Cut m c rest → contains c b'\n' ≡ false → length c ≡ m
Cut-length {m} {c} {rest} k h = elim k.line [
  | inl (ends, later) ↦ cc (has_last-contains b'\n' c ends)
  | inr (full, free) ↦ full
]

-- So the first chunk of a text of at least `m` bytes with no newline has `m` bytes.
Splits-first :
    {m : ℕ} {s : Text} {cs : List Text}
    → Splits m s cs
    → contains s b'\n' ≡ false
    → m ≤ length s
    → (c : Text) × (rest : List Text) × (cs ≡ c ∷ rest) × (length c ≡ m)
Splits-first (last {s} h) free long = (s, [], refl, omega arith)
Splits-first (cut {cs} c rest e k h) free long =
    (c, cs, refl, Cut-length k ((contains-append b'\n' c rest (rw (← e) free)).0))

Splits-second :
    {m : ℕ} {s : Text} {cs : List Text}
    → Splits m s cs
    → contains s b'\n' ≡ false
    → m + m ≤ length s
    → 0 < m
    → (c d : Text) × (rest : List Text) × (cs ≡ c ∷ d ∷ rest) × (length d ≡ m)
Splits-second (last h) free long pos = absurd (omega arith)
Splits-second (cut {cs} c rest e k h) free long pos =
    let parts = contains-append b'\n' c rest (rw (← e) free) in
    let size = Cut-length k parts.0 in
    let (d, ds, e', n) =
      Splits-first h parts.1 (omega (arith, ap length e, length-append c rest)) in
    (c, d, ds, ap (◌∷◌ c) e', n)

-- A message of at least twice the limit with no newline is split into chunks of which one is
-- longer than the platform's limit, on every platform that has a prefix.
pub split_message_too_long :
    (platform message : Text)
    → let l = get_platform_limits platform in
      0 < length l.split_prefix
      → contains message b'\n' ≡ false
      → l.max_message_len + l.max_message_len ≤ length message
      → (out : List Text) × (split_message_for_platform platform message ≡ some out)
        × ¬ All (λ c. length c ≤ l.max_message_len) out
split_message_too_long platform message has free long =
    let l = get_platform_limits platform in
    let (cs, e, h) = split_message_for_platform-Splits platform message in
    let (c, d, ds, e', n) = Splits-second h free long (max_message_len_pos platform) in
    let size : length (prefixed l.split_prefix d) ≡ length l.split_prefix + length d =
      rw (prefixed_lem l.split_prefix d) (length-append l.split_prefix d) in
    (
      prefix_rest l.split_prefix (c ∷ d ∷ ds),
      e ∙ ap (λ (x : List Text). some (prefix_rest l.split_prefix x)) e',
      λ fits. absurd (omega (arith, size, n, has, fits.1.0)),
    )
