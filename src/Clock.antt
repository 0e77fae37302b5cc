-- ===== src/Clock.antt =====
-- `DateTime<Utc>` as nanoseconds since the epoch, and `now_micros` of gate/src/ledger.rs.
use esclusa.Prelude.{
  ℕ, ◌+◌, ◌-◌, ◌*◌, ◌/◌, ◌%◌, ◌≡◌, ◌≤◌, ◌<◌, Option, none, some, arith, ltb, unwrap_or,
  if◌then◌else◌,
}

abbrev pub DateTime : Type 0
DateTime = ℕ

abbrev pub nanosecond : DateTime → ℕ
nanosecond t = t % 1_000_000_000

-- chrono's `with_nanosecond`, which refuses what is no nanosecond of a (leap) second.
abbrev pub with_nanosecond : DateTime → ℕ → Option DateTime
with_nanosecond t n = if ltb n 2_000_000_000 then some (t - nanosecond t + n) else none

unfoldable pub now_micros : DateTime → DateTime
now_micros now = unwrap_or (with_nanosecond now (nanosecond now / 1000 * 1000)) now

-- The time to whole microseconds.
abbrev pub IsMicros : DateTime → Type 0
IsMicros t = t % 1000 ≡ 0

pub now_micros-IsMicros : (now : DateTime) → IsMicros (now_micros now)
unfolding now_micros
now_micros-IsMicros now = ground arith

pub now_micros-le : (now : DateTime) → now_micros now ≤ now
unfolding now_micros
now_micros-le now = ground arith

pub now_micros-near : (now : DateTime) → now < now_micros now + 1000
unfolding now_micros
now_micros-near now = ground arith
