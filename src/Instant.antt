-- ===== src/Instant.antt =====
-- time.Time of Go's library, as far as the repository uses it. An instant counts nanoseconds from
-- the earliest one that Time can hold, 2 ^ 63 seconds before year 1, so that it is a natural
-- number; the location is kept, since it shows in the JSON form. Monotonic readings are left out.
use atoha.Prelude.{ℕ, ◌*◌, ◌^◌, String, Bool, ◌==◌, ltb}

pub record Time : Type 0 where
  pub instant : ℕ
  pub location : String

-- January 1, year 1, 00:00:00 UTC: the zero Time.
abbrev pub zero_instant : ℕ
zero_instant = 2 ^ 63 * 1000000000

abbrev pub zero_time : Time
zero_time = record { instant = zero_instant; location = "UTC" }

unfoldable pub is_zero : Time → Bool
is_zero t = t.instant == zero_instant

-- Time.Equal: the same instant, in whatever location.
unfoldable pub time_eq : Time → Time → Bool
time_eq a b = a.instant == b.instant

-- Time.UTC
unfoldable pub utc : Time → Time
utc t = record t { location = "UTC" }

-- a.After(b)
unfoldable pub after : Time → Time → Bool
after a b = ltb b.instant a.instant

-- time.Duration, in nanoseconds: `negative n` is the negative of n + 1.
pub data Duration : Type 0 where
  nanoseconds : ℕ → Duration
  negative : ℕ → Duration
