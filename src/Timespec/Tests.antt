-- ===== src/Timespec/Tests.antt =====
-- `timespec_diff` on concrete clock readings.
use kata_load_test.Base.{◌≡◌, refl, some, arith}
use kata_load_test.Base.Int.{pos, ◌+ℤ◌, ◌-ℤ◌}
use kata_load_test.Timespec.{Timespec, timespec_diff}
use kata_load_test.Timespec.Laws.{nanos, IsNormal, timespec_diff-exact}

abbrev received_at : Timespec
received_at = record { sec = pos 7; nsec = pos 100 }

abbrev sent_at : Timespec
sent_at = record { sec = pos 5; nsec = pos 999_999_000 }

timespec_diff-borrow :
    timespec_diff (some received_at) (some sent_at)
    ≡ some (record { sec = pos 1; nsec = pos 1_100 })
unfolding timespec_diff ◌-ℤ◌
timespec_diff-borrow = refl

received_at-IsNormal : IsNormal received_at
received_at-IsNormal = record { lower = ground arith; upper = ground arith }

sent_at-IsNormal : IsNormal sent_at
sent_at-IsNormal = record { lower = ground arith; upper = ground arith }

timespec_diff-exact_example :
    (d : Timespec) × (timespec_diff (some received_at) (some sent_at) ≡ some d)
    × IsNormal d
    × (nanos d +ℤ nanos sent_at ≡ nanos received_at)
timespec_diff-exact_example =
    timespec_diff-exact received_at sent_at received_at-IsNormal sent_at-IsNormal refl refl
