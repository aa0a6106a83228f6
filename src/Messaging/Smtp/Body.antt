-- ===== src/Messaging/Smtp/Body.antt =====
-- The lines of a mail body.
use vassago_sdk.Prelude.{
  ◌≤◌, ◌<◌, ◌≡◌, refl, ap, ◌∙◌, [], ◌∷◌, ◌++◌, arith, Text, length, take, drop, concat, All,
  length-take, length-drop, take-append-drop, append-nil,
}
use vassago_sdk.Messaging.Smtp.{Shorter, drop-Shorter, shorter_wf, lines_of, body_lines}
use mathlib.Core.Logic.{dif_pos, dif_neg}
use mathlib.Core.WellFounded.{Acc}
use native.Mathlib.Bridge.{le_prop}
use native.Mathlib.Decide.{dec_lt}

lines_of-concat : (body : Text) (w : Acc Shorter body) → concat (lines_of body w) ≡ body
unfolding lines_of
lines_of-concat body (Acc.intro _ smaller) = elim (dec_lt 78 (length body)) [
  | yes h ↦ rw (dif_pos _ le_prop h) (
      ap (◌++◌ (take 78 body))
        (lines_of-concat (drop 78 body) (smaller (drop 78 body) (drop-Shorter body h)))
      ∙ take-append-drop 78 body)
  | no h ↦ rw (dif_neg _ h) (append-nil body)
]

lines_of-fits :
    (body : Text) (w : Acc Shorter body)
    → 0 < length body
    → All (λ l. (0 < length l) × (length l ≤ 78)) (lines_of body w)
unfolding lines_of
lines_of-fits body (Acc.intro _ smaller) full = elim (dec_lt 78 (length body)) [
  | yes h ↦ rw (dif_pos _ le_prop h) (
    (omega (arith, length-take 78 body), omega (arith, length-take 78 body)),
    lines_of-fits (drop 78 body) (smaller (drop 78 body) (drop-Shorter body h))
        (omega (arith, length-drop 78 body)),
  )
  | no h ↦ rw (dif_neg _ h) ((full, omega arith), tt)
]

-- The lines of a body, put together again, are the body, and each has between 1 and 78 bytes.
pub body_lines_lem :
    (body : Text)
    → (concat (body_lines body) ≡ body)
      × All (λ l. (0 < length l) × (length l ≤ 78)) (body_lines body)
unfolding body_lines
body_lines_lem [] = (refl, tt)
body_lines_lem (c ∷ cs) =
    let w = shorter_wf.apply (c ∷ cs) in
    (lines_of-concat (c ∷ cs) w, lines_of-fits (c ∷ cs) w (omega arith))
