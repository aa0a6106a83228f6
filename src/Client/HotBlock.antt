-- ===== src/Client/HotBlock.antt =====
-- client/hotblock_cache.go. The clock is an argument, in nanoseconds since 1970; each method holds
-- the lock from its start to its end, so the methods of several goroutines come one after the other.
pub mod Age
use vassago_sdk.Prelude.{ℕ, suc, ◌+◌, ◌-◌, ◌*◌, ◌/◌, ◌^◌, Text, ltb, leb, if◌then◌else◌}
use vassago_sdk.Prelude.Int.{ℤ, pos, negsuc, pos_part, neg_part}

pub record HotBlockCache : Type 0 where
  pub content : Text
  pub char_count : ℤ
  pub entry_count : ℤ
  pub computed_at : ℤ
  pub target : Text
  pub agent_id : Text

-- `Unix` of a time: the seconds, rounded down.
abbrev pub unix : ℤ → ℤ
unix (pos n) = pos (n / 1000000000)
unix (negsuc n) = negsuc (n / 1000000000)

-- The time of a number of seconds.
abbrev pub seconds : ℤ → ℤ
seconds (pos n) = pos (n * 1000000000)
seconds (negsuc n) = negsuc (suc n * 1000000000 - 1)

abbrev difference : ℕ → ℕ → ℤ
difference m n = if leb n m then pos (m - n) else negsuc (n - m - 1)

-- A `Duration` has 64 bits, and the difference of two times stops at its bounds.
abbrev saturated : ℤ → ℤ
saturated (pos n) = if ltb n (2 ^ 63) then pos n else pos (2 ^ 63 - 1)
saturated (negsuc n) = if ltb n (2 ^ 63) then negsuc n else negsuc (2 ^ 63 - 1)

-- `time.Since` of a time.
unfoldable pub since : (now time : ℤ) → ℤ
since now time =
    saturated (difference (pos_part now + neg_part time) (pos_part time + neg_part now))

-- `NewHotBlockCache`
unfoldable pub new_hot_block_cache : ℤ → Text → Text → Text → ℤ → ℤ → HotBlockCache
new_hot_block_cache now target agent_id content char_count entry_count = record {
  content = content;
  char_count = char_count;
  entry_count = entry_count;
  computed_at = unix now;
  target = target;
  agent_id = agent_id;
}

-- `Content`
pub content : HotBlockCache → Text
content c = c.content

-- `Update`
unfoldable pub update : ℤ → Text → ℤ → ℤ → HotBlockCache → HotBlockCache
update now content char_count entry_count c = record c {
  content = content;
  char_count = char_count;
  entry_count = entry_count;
  computed_at = unix now;
}

-- `Stat`
unfoldable pub stat : HotBlockCache → Text × ℤ × ℤ × ℤ
stat c = (c.content, c.char_count, c.entry_count, c.computed_at)

-- `Age`
unfoldable pub age : ℤ → HotBlockCache → ℤ
unfolding since
age now c = since now (seconds c.computed_at)
