-- ===== src/Stats/Interarrival/Laws.antt =====
-- The times between requests that `check_ia` computes.
use kata_load_test.Base.{
  ℕ, zero, suc, ◌+◌, ◌-◌, ◌*◌, ◌^◌, ◌≤◌, ◌<◌, ◌≡◌, ◌↔◌, refl, sym, subst, ◌∙◌, ◌%◌, ◌==◌,
  Bool-cases, inl, inr, some, arith, update, ok,
}
use kata_load_test.Base.Int.{pos, pos_part, ◌≤ℤ◌, ◌-ℤ◌}
use kata_load_test.Timespec.{Timespec, timespec_diff, subtract}
use kata_load_test.Stats.Sort.{Sort, timespec_cmp, Agrees, IsSorting}
use kata_load_test.Stats.Interarrival.{inter_tx}

-- A clock reading between the first second of 1970 and 2038.
pub record IsClock (t : Timespec) : Type 0 where
  pub s : ℕ
  pub n : ℕ
  pub is_time : t ≡ record { sec = pos s; nsec = pos n }
  pub s_pos : 0 < s
  pub s_lt : s < 2 ^ 31
  pub n_lt : n < 1_000_000_000

-- The time in nanoseconds.
abbrev pub nanoseconds : Timespec → ℕ
nanoseconds t = pos_part t.sec * 1_000_000_000 + pos_part t.nsec

diff_at :
    (s n s' n' : ℕ)
    → 0 < s
    → 0 < s'
    → n < 1_000_000_000
    → n' < 1_000_000_000
    → s' * 1_000_000_000 + n' ≤ s * 1_000_000_000 + n
    → s * 1_000_000_000 + n < s' * 1_000_000_000 + n' + 1_000_000_000
    → timespec_diff
        (some (record { sec = pos s; nsec = pos n }))
        (some (record { sec = pos s'; nsec = pos n' }))
      ≡ some
          (record { sec = pos 0; nsec = pos ((s * 1_000_000_000 + n) - (s' * 1_000_000_000 + n')) })
unfolding timespec_diff subtract ◌-ℤ◌
diff_at s n s' n' h h' k k' le lt = ground arith

cmp_below :
    (s n s' n' : ℕ)
    → s < 2 ^ 31
    → s' < 2 ^ 31
    → n < 1_000_000_000
    → n' < 1_000_000_000
    → (timespec_cmp (record { sec = pos s; nsec = pos n }) (record { sec = pos s'; nsec = pos n' })
        ≤ℤ pos 0)
      ↔ (s * 1_000_000_000 + n ≤ s' * 1_000_000_000 + n')
unfolding ◌-ℤ◌
cmp_below s n s' n' h h' k k' = ground arith

cmp_above :
    (s n s' n' : ℕ)
    → s < 2 ^ 31
    → s' < 2 ^ 31
    → n < 1_000_000_000
    → n' < 1_000_000_000
    → (pos 0
        ≤ℤ timespec_cmp
            (record { sec = pos s; nsec = pos n })
            (record { sec = pos s'; nsec = pos n' }))
      ↔ (s' * 1_000_000_000 + n' ≤ s * 1_000_000_000 + n)
unfolding ◌-ℤ◌
cmp_above s n s' n' h h' k k' = ground arith

clock_diff :
    (a b : Timespec)
    → IsClock a
    → IsClock b
    → nanoseconds b ≤ nanoseconds a
    → nanoseconds a < nanoseconds b + 1_000_000_000
    → timespec_diff (some a) (some b)
      ≡ some (record { sec = pos 0; nsec = pos (nanoseconds a - nanoseconds b) })
clock_diff a b h k le lt =
    let le' : k.s * 1_000_000_000 + k.n ≤ h.s * 1_000_000_000 + h.n =
      rw (h.is_time, k.is_time) at le in
    let lt' : h.s * 1_000_000_000 + h.n < k.s * 1_000_000_000 + k.n + 1_000_000_000 =
      rw (h.is_time, k.is_time) at lt in
    rw (h.is_time, k.is_time) (diff_at h.s h.n k.s k.n h.s_pos k.s_pos h.n_lt k.n_lt le' lt')

-- Clock readings are compared right, though the differences are cut to an int.
pub timespec_cmp-Agrees :
    (n : ℕ) (f : ℕ → Timespec)
    → ((i : ℕ) → i < n → IsClock (f i))
    → Agrees timespec_cmp nanoseconds n f
timespec_cmp-Agrees n f clock = record {
  below = λ i j hi hj.
      let h = clock i hi in
      let k = clock j hj in
      rw (h.is_time, k.is_time) (cmp_below h.s h.n k.s k.n h.s_lt k.s_lt h.n_lt k.n_lt);
  above = λ i j hi hj.
      let h = clock i hi in
      let k = clock j hj in
      rw (h.is_time, k.is_time) (cmp_above h.s h.n k.s k.n h.s_lt k.s_lt h.n_lt k.n_lt);
}

gap_eq : (i : ℕ) (ia : ℕ → ℕ) (gap : ℕ) → gap < 2 ^ 64 → update ia i (gap % 2 ^ 64) i ≡ gap
gap_eq i ia gap h = ground arith

update_ne : (ia : ℕ → ℕ) (i m v : ℕ) → m < i → update ia i v m ≡ ia m
update_ne ia i m v h = ground arith

-- Entry `m` and the next are in order, and less than a second apart.
abbrev pub IsStep : (ℕ → Timespec) → ℕ → Type 0
IsStep times m =
    IsClock (times m)
    × IsClock (times (suc m))
    × (nanoseconds (times m) ≤ nanoseconds (times (suc m)))
    × (nanoseconds (times (suc m)) < nanoseconds (times m) + 1_000_000_000)

inter_tx-gaps :
    (n i : ℕ) (times : ℕ → Timespec) (ia : ℕ → ℕ)
    → ((m : ℕ) → i ≤ m → m < i + n → IsStep times m)
    → (ia' : ℕ → ℕ) × (inter_tx n i times ia ≡ ok ia')
      × ((m : ℕ) → i ≤ m → m < i + n → ia' m ≡ nanoseconds (times (suc m)) - nanoseconds (times m))
      × ((m : ℕ) → m < i → ia' m ≡ ia m)
unfolding inter_tx
inter_tx-gaps zero i times ia steps = (ia, refl, λ m lo hi. absurd (omega arith), λ m lt. refl)
inter_tx-gaps (suc n) i times ia steps =
    let (here, next, le, lt) = steps i (omega arith) (omega arith) in
    let gap = nanoseconds (times (suc i)) - nanoseconds (times i) in
    let (ia', run, gaps, kept) =
      inter_tx-gaps n (suc i) times (update ia i (gap % 2 ^ 64))
        (λ m lo hi. steps m (omega arith) (omega arith)) in
    (
      ia',
      rw (clock_diff (times (suc i)) (times i) next here le lt) run,
      λ m lo hi. elim (Bool-cases (i == m)) [
        | inl now ↦
            let same : i ≡ m = ground arith in
            subst (λ x. ia' x ≡ nanoseconds (times (suc x)) - nanoseconds (times x)) same
              (kept i (omega arith) ∙ gap_eq i ia gap (omega arith))
        | inr later ↦ gaps m (ground arith) (omega arith)
      ],
      λ m less. kept m (omega arith) ∙ update_ne ia i m (gap % 2 ^ 64) less,
    )

module _ (Q : Sort) (times : ℕ → Timespec) (size : ℕ) where
  abbrev sorted : ℕ → Timespec
  sorted = Q.qsort timespec_cmp size times

  -- For clock readings up to 2038 which, sorted, are less than a second apart from one to the next,
  -- and if qsort sorts: neither assertion of `check_ia` fails, and the times that it computes are
  -- the differences in nanoseconds of the sorted clock readings.
  pub inter_tx-exact :
      IsSorting Q timespec_cmp size times
      → ((i : ℕ) → i < size → IsClock (times i))
      → ((i : ℕ)
          → suc i < size
          → nanoseconds (sorted (suc i)) < nanoseconds (sorted i) + 1_000_000_000)
      → (ia : ℕ → ℕ)
      → (ia' : ℕ → ℕ) × (inter_tx (size - 1) 0 sorted ia ≡ ok ia')
        × ((m : ℕ) → suc m < size → ia' m ≡ nanoseconds (sorted (suc m)) - nanoseconds (sorted m))
  inter_tx-exact sorts clock close ia =
      let (ia', run, gaps, _) = inter_tx-gaps (size - 1) 0 sorted ia (λ m lo hi. (
        clocks m (omega arith),
        clocks (suc m) (omega arith),
        sorts.sorts nanoseconds (timespec_cmp-Agrees size times clock) m (suc m) (omega arith)
            (omega arith),
        close m (omega arith),
      )) in
      (ia', run, λ m lt. gaps m (omega arith) (omega arith))
    where
      clocks : (i : ℕ) → i < size → IsClock (sorted i)
      clocks i h =
          subst IsClock (sym (sorts.permutes i h)) (clock (sorts.source i) (sorts.source_lt i h))
