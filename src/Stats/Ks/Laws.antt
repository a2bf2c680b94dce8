-- ===== src/Stats/Ks/Laws.antt =====
-- The loop of the statistic merges the two sorted arrays.
use kata_load_test.Base.{
  ℕ, zero, suc, ◌+◌, ◌≤◌, ◌<◌, ◌≡◌, ◌⊎◌, inl, inr, arith, ltb, ◌&&◌, Bool-cases, true, false,
}
use kata_load_test.Rand.Real.{Real}
use kata_load_test.Stats.Ks.{KsState, ks_round, ks_loop, ks_start, ks_sorted}

-- The first `n` entries are in order.
abbrev pub IsOrdered : (ℕ → ℕ) → ℕ → Type 0
IsOrdered f n = (i j : ℕ) → i ≤ j → j < n → f i ≤ f j

-- The indices cut both arrays at one value: what is in front of either index is not above what is
-- behind the other.
pub record IsCut (a b : ℕ → ℕ) (a_len b_len ia ib : ℕ) : Type 0 where
  pub a_le : ia ≤ a_len
  pub b_le : ib ≤ b_len
  pub a_below : (i j : ℕ) → i < ia → ib ≤ j → j < b_len → a i ≤ b j
  pub b_below : (i j : ℕ) → j < ib → ia ≤ i → i < a_len → b j ≤ a i

module _ (a b : ℕ → ℕ) (a_len b_len : ℕ) (sorted_a : IsOrdered a a_len)
    (sorted_b : IsOrdered b b_len) where
  IsCut-left :
      (ia ib : ℕ)
      → ia < a_len
      → ib < b_len
      → a ia < b ib
      → IsCut a b a_len b_len ia ib
      → IsCut a b a_len b_len (ia + 1) ib
  IsCut-left ia ib ha hb lt h = record {
    a_le = omega arith;
    b_le = h.b_le;
    a_below = λ i j hi hj hj'. omega (arith, sorted_a i ia (omega arith) ha, sorted_b ib j hj hj');
    b_below = λ i j hj hi hi'. h.b_below i j hj (omega arith) hi';
  }

  IsCut-right :
      (ia ib : ℕ)
      → ia < a_len
      → ib < b_len
      → b ib < a ia
      → IsCut a b a_len b_len ia ib
      → IsCut a b a_len b_len ia (ib + 1)
  IsCut-right ia ib ha hb lt h = record {
    a_le = h.a_le;
    b_le = omega arith;
    a_below = λ i j hi hj hj'. h.a_below i j hi (omega arith) hj';
    b_below = λ i j hj hi hi'. omega (arith, sorted_b j ib (omega arith) hb, sorted_a ia i hi hi');
  }

  IsCut-both :
      (ia ib : ℕ)
      → ia < a_len
      → ib < b_len
      → a ia ≡ b ib
      → IsCut a b a_len b_len ia ib
      → IsCut a b a_len b_len (ia + 1) (ib + 1)
  IsCut-both ia ib ha hb same h = record {
    a_le = omega arith;
    b_le = omega arith;
    a_below = λ i j hi hj hj'.
        omega (arith, same, sorted_a i ia (omega arith) ha, sorted_b ib j (omega arith) hj');
    b_below = λ i j hj hi hi'.
        omega (arith, same, sorted_b j ib (omega arith) hb, sorted_a ia i (omega arith) hi');
  }

  module _ (F : Real) where
    open F use {R}

    -- One round moves the index of the smaller entry, or both.
    ks_round-steps :
        (s : KsState R)
        → ((a s.ia < b s.ib)
            × ((ks_round F a b a_len b_len s).ia ≡ s.ia + 1)
            × ((ks_round F a b a_len b_len s).ib ≡ s.ib))
          ⊎ ((a s.ia ≡ b s.ib)
              × ((ks_round F a b a_len b_len s).ia ≡ s.ia + 1)
              × ((ks_round F a b a_len b_len s).ib ≡ s.ib + 1))
          ⊎ ((b s.ib < a s.ia)
              × ((ks_round F a b a_len b_len s).ia ≡ s.ia)
              × ((ks_round F a b a_len b_len s).ib ≡ s.ib + 1))
    unfolding ks_round
    ks_round-steps s = ground arith

    ks_round-IsCut :
        (s : KsState R)
        → s.ia < a_len
        → s.ib < b_len
        → IsCut a b a_len b_len s.ia s.ib
        → IsCut a b a_len b_len (ks_round F a b a_len b_len s).ia (ks_round F a b a_len b_len s).ib
    ks_round-IsCut s ha hb h = elim (ks_round-steps s) [
      | inl (lt, ea, eb) ↦ rw (ea, eb) (IsCut-left s.ia s.ib ha hb lt h)
      | inr (inl (same, ea, eb)) ↦ rw (ea, eb) (IsCut-both s.ia s.ib ha hb same h)
      | inr (inr (lt, ea, eb)) ↦ rw (ea, eb) (IsCut-right s.ia s.ib ha hb lt h)
    ]

    ks_round-progress :
        (s : KsState R)
        → suc (s.ia + s.ib) ≤ (ks_round F a b a_len b_len s).ia + (ks_round F a b a_len b_len s).ib
    ks_round-progress s = omega (arith, ks_round-steps s)

    -- Both arrays are cut, and one is used up.
    abbrev pub IsMerged : KsState R → Type 0
    IsMerged s = IsCut a b a_len b_len s.ia s.ib × ((s.ia ≡ a_len) ⊎ (s.ib ≡ b_len))

    used_up :
        (s : KsState R)
        → IsCut a b a_len b_len s.ia s.ib
        → (ltb s.ia a_len && ltb s.ib b_len) ≡ false
        → (s.ia ≡ a_len) ⊎ (s.ib ≡ b_len)
    used_up s h e = let la = h.a_le in let lb = h.b_le in ground arith

    in_range :
        (s : KsState R)
        → (ltb s.ia a_len && ltb s.ib b_len) ≡ true
        → (s.ia < a_len) × (s.ib < b_len)
    in_range s e = ground arith

    ks_loop-IsMerged :
        (fuel : ℕ) (s : KsState R)
        → a_len + b_len ≤ fuel + (s.ia + s.ib)
        → IsCut a b a_len b_len s.ia s.ib
        → IsMerged (ks_loop F a b a_len b_len fuel s)
    unfolding ks_loop
    ks_loop-IsMerged zero s enough h = let la = h.a_le in let lb = h.b_le in (h, omega arith)
    ks_loop-IsMerged (suc fuel) s enough h = elim (Bool-cases (ltb s.ia a_len && ltb s.ib b_len)) [
      | inl more ↦
          let (ha, hb) = in_range s more in
          rw more (
            ks_loop-IsMerged fuel (ks_round F a b a_len b_len s)
              (omega (arith, ks_round-progress s)) (ks_round-IsCut s ha hb h))
      | inr done ↦ rw done (h, used_up s h done)
    ]

    -- On two sorted arrays the loop ends within as many rounds as there are entries, with one array
    -- used up; neither index has passed the end of its array, and the two cut the arrays at one
    -- value: what is in front of either is not above what is behind the other.
    pub ks_sorted-IsMerged : (unset : R) → IsMerged (ks_sorted F a b a_len b_len unset)
    ks_sorted-IsMerged unset =
        ks_loop-IsMerged (a_len + b_len) (ks_start F a b a_len b_len unset) (omega arith) (record {
          a_le = omega arith;
          b_le = omega arith;
          a_below = λ i j hi. absurd (omega arith);
          b_below = λ i j hj. absurd (omega arith);
        })
