-- ===== src/Timespec.antt =====
-- `struct timespec` and the arithmetic on it: `timespec_diff` of lancet/agents/timestamping.c. The
-- fields are C `long`s, modelled as integers: none of the differences taken of clock readings
-- leaves the range of a 64-bit long.
pub mod Laws
mod Tests
use kata_load_test.Base.{ℕ, Bool, ◌&&◌, ◌||◌, Option, none, some, ◌==◌, if◌then◌else◌}
use kata_load_test.Base.Int.{ℤ, pos, pos_part, neg_part, ◌-ℤ◌, ltb_ℤ}

pub record Timespec : Type 0 where
  pub sec : ℤ
  pub nsec : ℤ

-- What `bzero` and `calloc` leave.
abbrev pub zero_timespec : Timespec
zero_timespec = record { sec = pos 0; nsec = pos 0 }

abbrev pub is_zero : ℤ → Bool
is_zero z = pos_part z == 0 && neg_part z == 0

abbrev pub billion : ℤ
billion = pos 1_000_000_000

-- The two branches on the nanosecond fields, past the guards.
unfoldable pub subtract : Timespec → Timespec → Timespec
subtract a b =
    if ltb_ℤ a.nsec b.nsec
    then record { sec = a.sec -ℤ pos 1 -ℤ b.sec; nsec = billion -ℤ (b.nsec -ℤ a.nsec) }
    else record { sec = a.sec -ℤ b.sec; nsec = a.nsec -ℤ b.nsec }

-- An argument is `none` for a null pointer; the result is `none` for the return value -1, with
-- which `*res` is not written.
unfoldable pub timespec_diff : Option Timespec → Option Timespec → Option Timespec
unfolding subtract
timespec_diff none b = none
timespec_diff (some a) none = none
timespec_diff (some a) (some b) =
    if is_zero a.sec || is_zero b.sec then none else some (subtract a b)
