-- ===== src/Client/HotBlock/Age.antt =====
-- Age of client/hotblock_cache.go: how it relates to the time of the last update.
use vassago_sdk.Prelude.{ℕ, ◌+◌, ◌-◌, ◌*◌, ◌/◌, ◌^◌, ◌≤◌, ◌<◌, ◌≡◌, Text, arith}
use vassago_sdk.Prelude.Int.{ℤ, pos}
use vassago_sdk.Client.HotBlock.{HotBlockCache, since, update, age}

-- The age, read at `now`, of a cache that was updated at `then` is a number of nanoseconds: the time
-- since, and less than a second more, as long as that has 64 bits.
age_lem :
    (then now : ℕ) (content : Text) (char_count entry_count : ℤ) (c : HotBlockCache)
    → then ≤ now
    → now < 2 ^ 63
    → (n : ℕ) × (age (pos now) (update (pos then) content char_count entry_count c) ≡ pos n)
      × (now - then ≤ n)
      × (n < now - then + 1000000000)
unfolding age since update
age_lem then now content char_count entry_count c le fits =
    (now - then / 1000000000 * 1000000000, ground arith, omega arith, omega arith)
