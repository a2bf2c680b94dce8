-- ===== src/AppProto/Decimal.antt =====
-- Decimal numerals as snprintf writes them, over the codes of their characters.
use native.Mathlib.Nat.{pow-suc}
use kata_load_test.Base.{
  ℕ, zero, suc, ◌+◌, ◌-◌, ◌*◌, ◌/◌, ◌%◌, ◌^◌, ◌<◌, ◌≡◌, refl, ◌∙◌, List, [], ◌∷◌, ◌++◌, arith,
  length, length-append, true, false, ltb, Bool-cases, inl, inr,
}

abbrev pub digit : ℕ → ℕ
digit n = b'0' + n % 10

-- "%0*d" of a number that has at most `width` digits.
unfoldable pub padded : ℕ → ℕ → List ℕ
padded zero n = []
padded (suc width) n = padded width (n / 10) ++ digit n ∷ []

-- "%ld" of a number that is not negative and has at most `suc width` digits, as any long has at
-- most 19.
unfoldable pub decimal : ℕ → ℕ → List ℕ
decimal zero n = digit n ∷ []
decimal (suc width) n = elim (ltb n 10) [
  | true ↦ digit n ∷ []
  | false ↦ decimal width (n / 10) ++ digit n ∷ []
]

-- The number that a text of digits stands for, read from the left after `acc`.
unfoldable pub value_from : ℕ → List ℕ → ℕ
value_from acc [] = acc
value_from acc (c ∷ cs) = value_from (acc * 10 + (c - b'0')) cs

abbrev pub value : List ℕ → ℕ
value cs = value_from 0 cs

value_from-snoc :
    (acc : ℕ) (cs : List ℕ) (c : ℕ)
    → value_from acc (cs ++ c ∷ []) ≡ value_from acc cs * 10 + (c - b'0')
unfolding value_from
value_from-snoc acc [] c = refl
value_from-snoc acc (x ∷ cs) c = value_from-snoc (acc * 10 + (x - b'0')) cs c

pub length-padded : (width n : ℕ) → length (padded width n) ≡ width
unfolding padded
length-padded zero n = refl
length-padded (suc width) n =
    omega
      (arith, length-append (padded width (n / 10)) (digit n ∷ []), length-padded width (n / 10))

pub value-padded : (width n : ℕ) → n < 10 ^ width → value (padded width n) ≡ n
unfolding padded value_from
value-padded zero n h = omega arith
value-padded (suc width) n h =
    value_from-snoc 0 (padded width (n / 10)) (digit n)
    ∙ omega (arith, value-padded width (n / 10) (tenth width n h))
  where
    tenth : (width n : ℕ) → n < 10 ^ suc width → n / 10 < 10 ^ width
    tenth width n h = omega (arith, pow-suc 10 width)

pub value-decimal : (width n : ℕ) → n < 10 ^ suc width → value (decimal width n) ≡ n
unfolding decimal value_from
value-decimal zero n h = omega arith
value-decimal (suc width) n h = elim (Bool-cases (ltb n 10)) [
  | inl small ↦ rw (small, decimal) (ground arith)
  | inr large ↦
      rw (large, decimal)
        (value_from-snoc 0 (decimal width (n / 10)) (digit n)
          ∙ omega (arith, value-decimal width (n / 10) (omega (arith, pow-suc 10 (suc width)))))
]
