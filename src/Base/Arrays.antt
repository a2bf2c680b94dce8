-- ===== src/Base/Arrays.antt =====
-- A C array as the function from indices to entries; the code's bounds are checked where it uses
-- them. `update` is one assignment, `copy` a memcpy.
use Prim.Native.Nat.{ℕ, zero, suc, ◌+◌, ◌-◌, ◌%◌, ◌≤◌, ◌<◌}
use mathlib.Core.Path.{◌≡◌, refl, ap}
use mathlib.Core.Logic.{◌≢◌}
use mathlib.Core.Bool.{◌&&◌}
use mathlib.Core.List.{List, [], ◌∷◌, ◌++◌}
use native.Mathlib.Omega.{arith}
use native.Mathlib.Nat.{div-add-mod}
use kata_load_test.Base.Lists.{drop, length}
use kata_load_test.Base.Tests.{◌==◌, ltb, leb, if◌then◌else◌}

module _ {ℓ} {A : Type ℓ} where
  abbrev pub update : (ℕ → A) → ℕ → A → ℕ → A
  update f i v j = if i == j then v else f j

  -- `n` entries of `src` from its start, copied to `dst` from index `i` on.
  abbrev pub copy : (ℕ → A) → ℕ → (ℕ → A) → ℕ → ℕ → A
  copy dst i src n j = if leb i j && ltb j (i + n) then src (j - i) else dst j

  -- The entries from index `i` on, `n` of them.
  abbrev pub slice : (ℕ → A) → ℕ → ℕ → List A
  slice f i zero = []
  slice f i (suc n) = f i ∷ slice f (i + 1) n

  pub slice-cong :
      (f g : ℕ → A) (i n : ℕ)
      → ((k : ℕ) → i ≤ k → k < i + n → f k ≡ g k)
      → slice f i n ≡ slice g i n
  slice-cong f g i zero h = refl
  slice-cong f g i (suc n) h = ground (
    arith,
    h i (omega arith) (omega arith),
    slice-cong f g (i + 1) n (λ k a b. h k (omega arith) (omega arith)),
  )

  pub slice-snoc : (f : ℕ → A) (i n : ℕ) → slice f i (n + 1) ≡ slice f i n ++ f (i + n) ∷ []
  slice-snoc f i zero = ground arith
  slice-snoc f i (suc n) = ground (arith, slice-snoc f (i + 1) n)

  pub slice_shift :
      (f g : ℕ → A) (i j n : ℕ)
      → ((k : ℕ) → k < n → f (i + k) ≡ g (j + k))
      → slice f i n ≡ slice g j n
  slice_shift f g i j zero h = refl
  slice_shift f g i j (suc n) h =
      let rest : (k : ℕ) → k < n → f (i + 1 + k) ≡ g (j + 1 + k) =
        λ k lt. ground (arith, h (suc k) (omega arith)) in
      ground (arith, h 0 (omega arith), slice_shift f g (i + 1) (j + 1) n rest)

  pub slice-append : (f : ℕ → A) (i m n : ℕ) → slice f i (m + n) ≡ slice f i m ++ slice f (i + m) n
  slice-append f i zero n = ground arith
  slice-append f i (suc m) n =
      let e : suc m + n ≡ suc (m + n) = omega arith in
      rw e (ground (arith, slice-append f (i + 1) m n))

  pub length-slice : (f : ℕ → A) (i n : ℕ) → length (slice f i n) ≡ n
  length-slice f i zero = refl
  length-slice f i (suc n) = ap suc (length-slice f (i + 1) n)

  pub drop-slice : (f : ℕ → A) (i n m : ℕ) → drop n (slice f i m) ≡ slice f (i + n) (m - n)
  drop-slice f i zero m = ground arith
  drop-slice f i (suc n) zero = ground arith
  drop-slice f i (suc n) (suc m) = ground (arith, drop-slice f (i + 1) n m)

  pub slice-cons : (f : ℕ → A) (i n : ℕ) → 0 < n → slice f i n ≡ f i ∷ slice f (i + 1) (n - 1)
  slice-cons f i zero h = absurd (omega arith)
  slice-cons f i (suc n) h = ground arith

  pub slice-copy_low : (dst src : ℕ → A) (i n : ℕ) → slice (copy dst i src n) 0 i ≡ slice dst 0 i
  slice-copy_low dst src i n = slice-cong _ _ 0 i (λ k lo hi. ground arith)

  pub slice-copy_high : (dst src : ℕ → A) (i n : ℕ) → slice (copy dst i src n) i n ≡ slice src 0 n
  slice-copy_high dst src i n = slice_shift _ src i 0 n (λ k lt. ground arith)

-- Two positions less than `cap` apart do not share a slot of a ring of `cap` entries.
pub mod-ne : (cap i j : ℕ) → i < j → j < i + cap → i % cap ≢ j % cap
mod-ne cap i j h k e = absurd (grind (arith, div-add-mod i cap, div-add-mod j cap))
