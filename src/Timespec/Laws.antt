-- ===== src/Timespec/Laws.antt =====
-- What `timespec_diff` computes.
use kata_load_test.Base.{
  ◌+◌, ◌*◌, ◌≡◌, refl, ◌↔◌, ◌⊎◌, inl, inr, true, false, Option, none, some, arith, Bool-cases,
}
use kata_load_test.Base.Int.{
  ℤ, pos, pos_part, neg_part, ◌+ℤ◌, ◌-ℤ◌, ◌*ℤ◌, ◌≤ℤ◌, ltb_ℤ, +ℤ_parts, -ℤ_parts, eq_of_parts,
}
use kata_load_test.Timespec.{Timespec, billion, is_zero, subtract, timespec_diff}

-- The time that a timespec stands for, in nanoseconds.
pub nanos : Timespec → ℤ
nanos t = t.sec *ℤ billion +ℤ t.nsec

-- A null pointer, or a time whose seconds are 0.
abbrev pub IsUnset : Option Timespec → Type 0
IsUnset none = Unit {0}
IsUnset (some t) = is_zero t.sec ≡ true

-- A clock reading: the nanoseconds are a fraction of a second.
pub record IsNormal (t : Timespec) : Type 0 where
  pub lower : pos 0 ≤ℤ t.nsec
  pub upper : t.nsec ≤ℤ pos 999_999_999

*ℤ_parts :
    (a b : ℤ)
    → pos_part (a *ℤ b) + (pos_part a * neg_part b + neg_part a * pos_part b)
      ≡ neg_part (a *ℤ b) + (pos_part a * pos_part b + neg_part a * neg_part b)
unfolding ◌*ℤ◌
*ℤ_parts a b = ground arith

nanos_parts :
    (t : Timespec)
    → pos_part (nanos t) + (neg_part t.sec * 1_000_000_000 + neg_part t.nsec)
      ≡ neg_part (nanos t) + (pos_part t.sec * 1_000_000_000 + pos_part t.nsec)
unfolding nanos
nanos_parts t = omega (arith, *ℤ_parts, +ℤ_parts)

ruleset exact = (arith, nanos_parts, +ℤ_parts, -ℤ_parts)

-- Both branches of the subtraction are exact.
subtract-nanos : (a b : Timespec) → nanos (subtract a b) +ℤ nanos b ≡ nanos a
unfolding subtract
subtract-nanos a b = elim (Bool-cases (ltb_ℤ a.nsec b.nsec)) [
  | inl borrow ↦ rw (borrow, subtract) (eq_of_parts _ _ (omega exact))
  | inr plain ↦ rw (plain, subtract) (eq_of_parts _ _ (omega exact))
]

subtract-IsNormal : (a b : Timespec) → IsNormal a → IsNormal b → IsNormal (subtract a b)
unfolding subtract ◌-ℤ◌
subtract-IsNormal a b h k = ground arith

-- On two clock readings that are set (their seconds are not 0) `timespec_diff` succeeds; its result
-- is normal again and is exactly their difference in nanoseconds.
pub timespec_diff-exact :
    (a b : Timespec)
    → IsNormal a
    → IsNormal b
    → is_zero a.sec ≡ false
    → is_zero b.sec ≡ false
    → (d : Timespec) × (timespec_diff (some a) (some b) ≡ some d)
      × IsNormal d
      × (nanos d +ℤ nanos b ≡ nanos a)
unfolding timespec_diff
timespec_diff-exact a b na nb sa sb =
    (subtract a b, rw (sa, sb), subtract-IsNormal a b na nb, subtract-nanos a b)

-- `timespec_diff` fails exactly when one of its arguments is null or has seconds equal to 0.
pub timespec_diff-fails :
    (x y : Option Timespec) → (timespec_diff x y ≡ none) ↔ (IsUnset x ⊎ IsUnset y)
unfolding timespec_diff
timespec_diff-fails none y = (λ _. inl tt, λ _. refl)
timespec_diff-fails (some a) none = (λ _. inr tt, λ _. refl)
timespec_diff-fails (some a) (some b) = ground arith
