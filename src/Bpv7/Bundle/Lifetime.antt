-- ===== src/Bpv7/Bundle/Lifetime.antt =====
-- When a bundle's lifetime is over, where its creation time is known.
use dtn7_go.Base.{ℕ, ◌+◌, ◌*◌, ◌^◌, ◌<◌, ◌≤◌, ◌≡◌, true, ltb, ok, arith}
use dtn7_go.Bpv7.Time.{is_zero_time, unix_milliseconds, raised, milliseconds_1970_to_2k}
use dtn7_go.Bpv7.Bundle.{Bundle}
use dtn7_go.Bpv7.Bundle.Check.{after_max_timestamp, is_lifetime_exceeded, lifetime_duration}

-- The creation time in nanoseconds since 1970.
abbrev pub created_at : Bundle → ℕ
created_at b = (b.primary_block.creation_timestamp.dtn_time + milliseconds_1970_to_2k) * 1_000_000

-- A creation time that is known, and that Go's signed 64 bits hold in milliseconds.
abbrev pub IsDated : Bundle → Type 0
IsDated b =
    (0 < b.primary_block.creation_timestamp.dtn_time)
    × (b.primary_block.creation_timestamp.dtn_time + milliseconds_1970_to_2k < 2 ^ 63)

pub compares :
    (now t lifetime : ℕ)
    → t + milliseconds_1970_to_2k < 2 ^ 63
    → lifetime * 1_000_000 < 2 ^ 63
    → ltb
        (raised (unix_milliseconds t) * 1_000_000 + raised (lifetime_duration lifetime))
        (now + 2 ^ 64 * 1_000_000 + 2 ^ 64)
      ≡ ltb ((t + milliseconds_1970_to_2k) * 1_000_000 + lifetime * 1_000_000) now
unfolding raised unix_milliseconds
compares now t lifetime ht hl = ground (arith, ht, hl)

wraps :
    (now t lifetime : ℕ)
    → t + milliseconds_1970_to_2k < 2 ^ 63
    → 2 ^ 63 ≤ lifetime * 1_000_000
    → lifetime * 1_000_000 < 2 ^ 64
    → (t + milliseconds_1970_to_2k) * 1_000_000 ≤ now
    → ltb
        (raised (unix_milliseconds t) * 1_000_000 + raised (lifetime_duration lifetime))
        (now + 2 ^ 64 * 1_000_000 + 2 ^ 64)
      ≡ true
unfolding raised unix_milliseconds
wraps now t lifetime ht hl hu hn = ground (arith, ht, hl, hu, hn)

-- If a bundle says when it was created, at a time that fits in signed 64 bits of milliseconds, and its
-- lifetime is less than 2 ^ 63 nanoseconds, then it is over just when more than its lifetime has
-- passed since its creation.
pub is_lifetime_exceeded-dated :
    (now : ℕ) (b : Bundle)
    → IsDated b
    → b.primary_block.lifetime * 1_000_000 < 2 ^ 63
    → is_lifetime_exceeded now b
      ≡ ok (ltb (created_at b + b.primary_block.lifetime * 1_000_000) now)
unfolding is_lifetime_exceeded is_zero_time after_max_timestamp
is_lifetime_exceeded-dated now b (known, fits) short =
    ground (arith, known, compares now _ b.primary_block.lifetime fits short)

-- If a bundle says when it was created, at a time that fits in signed 64 bits of milliseconds, and its
-- lifetime is 2 ^ 63 nanoseconds or more, but less than 2 ^ 64, then it counts as over from the moment
-- of its creation on.
pub is_lifetime_exceeded-wraps :
    (now : ℕ) (b : Bundle)
    → IsDated b
    → 2 ^ 63 ≤ b.primary_block.lifetime * 1_000_000
    → b.primary_block.lifetime * 1_000_000 < 2 ^ 64
    → created_at b ≤ now
    → is_lifetime_exceeded now b ≡ ok true
unfolding is_lifetime_exceeded is_zero_time after_max_timestamp
is_lifetime_exceeded-wraps now b (known, fits) long below later =
    ground (arith, known, wraps now _ b.primary_block.lifetime fits long below later)
