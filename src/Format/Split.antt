-- ===== src/Format/Split.antt =====
-- `splitMessage` against an independent description of how a text is cut into chunks.
use vassago_sdk.Prelude.{
  ℕ, zero, suc, ◌+◌, ◌-◌, ◌≤◌, ◌<◌, ◌≡◌, refl, sym, ap, ◌∙◌, ◌⊎◌, inl, inr, true, false, List, [],
  ◌∷◌, ◌++◌, Option, none, some, arith, leb, Bool-cases, Text, last_index, contains, has_last,
  length, take, drop, concat, All, length-take, length-drop, take-take, drop-take, take-append-drop,
  append-nil, leb→le, leb-false→lt,
}
use vassago_sdk.Prelude.Search.{last_index-lt, last_index-none, last_index_after, last_index_ends}
use vassago_sdk.Format.{chunk_end, split_loop, split_message}

-- Where `c` may be cut off in front of `rest`, for chunks of at most `m` bytes: behind a newline,
-- and then the window of `m` bytes has no later one; or after `m` bytes that have no newline but
-- perhaps the first.
pub record Cut (m : ℕ) (c rest : Text) : Type 0 where
  pub nonempty : 0 < length c
  pub fits : length c ≤ m
  pub needed : m < length c + length rest
  pub line :
      ((has_last c b'\n' ≡ true) × (contains (take (m - length c) rest) b'\n' ≡ false))
      ⊎ ((length c ≡ m) × (contains (drop 1 c) b'\n' ≡ false))

-- The chunks of a text: cut while it is longer than `m`.
pub data Splits (m : ℕ) : Text → List Text → Type 0 where
  last : {s : Text} → length s ≤ m → Splits m s (s ∷ [])
  cut :
      {s : Text} {cs : List Text} (c rest : Text)
      → s ≡ c ++ rest
      → Cut m c rest
      → Splits m rest cs
      → Splits m s (c ∷ cs)

drop_one-contains : (s : Text) → contains s b'\n' ≡ false → contains (drop 1 s) b'\n' ≡ false
unfolding contains
drop_one-contains [] h = h
drop_one-contains (x ∷ xs) h = ground arith

module _ (m : ℕ) (s : Text) (pos : 0 < m) (long : m < length s) where
  Cut-at :
      (n : ℕ)
      → 0 < n
      → n ≤ m
      → ((has_last (take n s) b'\n' ≡ true) × (contains (take (m - n) (drop n s)) b'\n' ≡ false))
        ⊎ ((n ≡ m) × (contains (drop 1 (take n s)) b'\n' ≡ false))
      → Cut m (take n s) (drop n s)
  Cut-at n p le d =
      let e : length (take n s) ≡ n = omega (arith, length-take n s) in
      record {
        nonempty = rw e p;
        fits = rw e le;
        needed = omega (arith, e, length-drop n s);
        line = rw e d;
      }

  -- A cut at a newline of the window, which stands at place `i + 1`.
  Cut-line :
      (i : ℕ)
      → last_index (take m s) b'\n' ≡ some (suc i)
      → Cut m (take (suc (suc i)) s) (drop (suc (suc i)) s)
  Cut-line i e =
      let n = suc (suc i) in
      let le : n ≤ m = omega (arith, last_index-lt b'\n' (take m s) (suc i) e, length-take m s) in
      let back : n + (m - n) ≡ m = omega arith in
      let ends = rw (take-take n m s le) at (last_index_ends b'\n' (take m s) (suc i) e) in
      let after : contains (drop n (take (n + (m - n)) s)) b'\n' ≡ false =
        rw back (last_index_after b'\n' (take m s) (suc i) e) in
      Cut-at n (omega arith) le (inl (ends, rw (← drop-take n (m - n) s) after))

  -- A cut after `m` bytes.
  Cut-full : contains (drop 1 (take m s)) b'\n' ≡ false → Cut m (take m s) (drop m s)
  Cut-full e = Cut-at m pos (omega arith) (inr (refl, e))

  chunk_end-Cut : Cut m (take (chunk_end m s) s) (drop (chunk_end m s) s)
  unfolding chunk_end
  chunk_end-Cut = go (last_index (take m s) b'\n') refl
    where
      go :
          (o : Option ℕ)
          → last_index (take m s) b'\n' ≡ o
          → Cut m (take (chunk_end m s) s) (drop (chunk_end m s) s)
      go none e =
          rw (e, chunk_end)
            (Cut-full (drop_one-contains (take m s) (last_index-none b'\n' (take m s) e)))
      go (some zero) e = rw (e, chunk_end) (Cut-full (last_index_after b'\n' (take m s) 0 e))
      go (some (suc i)) e = rw (e, chunk_end) (Cut-line i e)

-- With a positive limit and fuel above the length, the loop ends in the described chunks.
split_loop-Splits :
    (fuel m : ℕ) (s : Text)
    → 0 < m
    → 0 < length s
    → length s < fuel
    → (cs : List Text) × (split_loop fuel m s ≡ some cs) × Splits m s cs
unfolding split_loop
split_loop-Splits zero m s pos full enough = absurd (omega arith)
split_loop-Splits (suc f) m [] pos full enough = absurd (omega arith)
split_loop-Splits (suc f) m (x ∷ xs) pos full enough = elim (Bool-cases (leb (length (x ∷ xs)) m)) [
  | inl short ↦ ((x ∷ xs) ∷ [], rw short refl, last (leb→le _ _ short))
  | inr long ↦
      let s : Text = x ∷ xs in
      let n = chunk_end m s in
      let c = chunk_end-Cut m s pos (leb-false→lt _ _ long) in
      let whole = sym (take-append-drop n s) in
      let size = length-drop n s in
      let cut_size = length-take n s in
      let (cs, e, h) =
        split_loop-Splits f m (drop n s) pos (omega (arith, c.needed, c.fits, cut_size))
          (omega (arith, c.nonempty, cut_size)) in
      (take n s ∷ cs, rw (long, e) refl, cut (take n s) (drop n s) whole c h)
]

-- `splitMessage` with a positive limit ends, and its chunks are those of `Splits`.
pub split_message-Splits :
    (s : Text) (m : ℕ) → 0 < m → (cs : List Text) × (split_message s m ≡ some cs) × Splits m s cs
unfolding split_message
split_message-Splits s m pos = elim (Bool-cases (leb (length s) m)) [
  | inl short ↦ (s ∷ [], rw short refl, last (leb→le _ _ short))
  | inr long ↦
      let (cs, e, h) =
        split_loop-Splits (suc (length s)) m s pos (omega (arith, leb-false→lt _ _ long))
          (omega arith) in
      (cs, rw (long, e) refl, h)
]

-- Nothing is lost, added or moved by cutting.
pub Splits-concat : {m : ℕ} {s : Text} {cs : List Text} → Splits m s cs → concat cs ≡ s
Splits-concat (last {s} h) = append-nil s
Splits-concat (cut c rest e k h) = ap (◌++◌ c) (Splits-concat h) ∙ sym e

-- No chunk is longer than the limit.
pub Splits-fits : {m : ℕ} {s : Text} {cs : List Text} → Splits m s cs → All (λ c. length c ≤ m) cs
Splits-fits (last h) = (h, tt)
Splits-fits (cut c rest e k h) = (k.fits, Splits-fits h)
