-- ===== src/Stats/Sort.antt =====
-- Sorting in lancet/agents/stats.c: the comparison functions, and qsort of the C library.
pub mod Laws
use kata_load_test.Base.{
  ℕ, ◌-◌, ◌^◌, ◌≤◌, ◌<◌, ◌≡◌, ◌↔◌, Bool, if◌then◌else◌, ltb, ◌&&◌, not, wrap32, sub64,
}
use kata_load_test.Base.Int.{ℤ, pos, negsuc, ◌-ℤ◌, ◌≤ℤ◌, ltb_ℤ, to_u64}
use kata_load_test.Timespec.{Timespec}
use kata_load_test.Stats.State.{LatSample}

-- A 64-bit word as an int: its low half, signed.
abbrev pub to_int : ℕ → ℤ
to_int w = if ltb (wrap32 w) (2 ^ 31) then pos (wrap32 w) else negsuc (2 ^ 32 - 1 - wrap32 w)

abbrev pub long_compare : ℕ → ℕ → ℤ
long_compare a b = to_int (sub64 a b)

abbrev pub sample_cmp_latency : LatSample → LatSample → ℤ
sample_cmp_latency lts1 lts2 = to_int (sub64 lts1.nsec lts2.nsec)

-- A comparison as an int.
abbrev pub int_of : Bool → ℤ
int_of b = if b then pos 1 else pos 0

abbrev pub same : ℤ → ℤ → Bool
same a b = not (ltb_ℤ a b) && not (ltb_ℤ b a)

abbrev pub sample_cmp_tx : LatSample → LatSample → ℤ
sample_cmp_tx lts1 lts2 =
    if not (same lts1.tx.sec lts2.tx.sec)
    then int_of (ltb_ℤ lts2.tx.sec lts1.tx.sec)
    else int_of (ltb_ℤ lts2.tx.nsec lts1.tx.nsec)

abbrev pub timespec_cmp : Timespec → Timespec → ℤ
timespec_cmp a b =
    if same a.sec b.sec
    then to_int (to_u64 (a.nsec -ℤ b.nsec))
    else to_int (to_u64 (a.sec -ℤ b.sec))

-- qsort on the first `n` entries of an array.
pub record Sort : Type 1 where
  pub qsort : {A : Type 0} → (A → A → ℤ) → ℕ → (ℕ → A) → ℕ → A

-- On the first `n` entries the sign of the comparison is that of the comparison of a key.
pub record Agrees {A : Type 0} (cmp : A → A → ℤ) (key : A → ℕ) (n : ℕ) (f : ℕ → A) : Type 0 where
  pub below : (i j : ℕ) → i < n → j < n → (cmp (f i) (f j) ≤ℤ pos 0) ↔ (key (f i) ≤ key (f j))
  pub above : (i j : ℕ) → i < n → j < n → (pos 0 ≤ℤ cmp (f i) (f j)) ↔ (key (f j) ≤ key (f i))

-- What a call of qsort is documented to do: it leaves the entries behind the first `n`, it permutes
-- the first `n` (entry `i` comes from `source i`), and it sorts them if the comparison is consistent.
pub record IsSorting (Q : Sort) {A : Type 0} (cmp : A → A → ℤ) (n : ℕ) (f : ℕ → A) : Type 0 where
  pub keeps : (i : ℕ) → n ≤ i → Q.qsort cmp n f i ≡ f i
  pub source : ℕ → ℕ
  pub target : ℕ → ℕ
  pub source_lt : (i : ℕ) → i < n → source i < n
  pub target_lt : (i : ℕ) → i < n → target i < n
  pub source_target : (i : ℕ) → i < n → source (target i) ≡ i
  pub target_source : (i : ℕ) → i < n → target (source i) ≡ i
  pub permutes : (i : ℕ) → i < n → Q.qsort cmp n f i ≡ f (source i)
  pub sorts :
      (key : A → ℕ)
      → Agrees cmp key n f
      → (i j : ℕ) → i ≤ j
      → j < n
      → key (Q.qsort cmp n f i) ≤ key (Q.qsort cmp n f j)
