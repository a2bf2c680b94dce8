-- ===== src/Rand/Strtok/Tokens.antt =====
-- strtok with any delimiters, on a text between delimiters.
use mathlib.Core.List.{append-nil}
use kata_load_test.Base.{
  ℕ, ◌≡◌, refl, Bool, true, false, ◌||◌, none, some, length, ◌≤◌, ◌<◌, Bool-cases, inl, inr, List,
  [], ◌∷◌, ◌++◌, ◌==◌, arith,
}
use kata_load_test.Rand.Strtok.{skip_delims, span_token, close_token, at_end, strtok, Scan}

abbrev pub IsNonempty : List ℕ → Type 0
IsNonempty [] = ⊥
IsNonempty (c ∷ cs) = Unit {0}

left_false : (b c : Bool) → (b || c) ≡ false → b ≡ false
left_false false c h = refl
left_false true c h = h

right_false : (b c : Bool) → (b || c) ≡ false → c ≡ false
right_false false c h = h
right_false true c h = absurd (ground arith)

module _ (is_delim : ℕ → Bool) where
  -- A NUL or a delimiter.
  abbrev pub ends_at : ℕ → Bool
  ends_at c = c == 0 || is_delim c

  -- Bytes without a NUL or a delimiter.
  abbrev pub IsFree : List ℕ → Type 0
  IsFree [] = Unit {0}
  IsFree (c ∷ cs) = (ends_at c ≡ false) × IsFree cs

  span_token-free :
      (t : List ℕ) (e : ℕ) (rest : List ℕ)
      → IsFree t
      → ends_at e ≡ true
      → span_token is_delim (t ++ e ∷ rest) ≡ (t, e ∷ rest)
  span_token-free [] e rest h k = rw k
  span_token-free (c ∷ cs) e rest h k = rw (h.0, span_token-free cs e rest h.1 k)

  span_token-whole : (t : List ℕ) → IsFree t → span_token is_delim t ≡ (t, [])
  span_token-whole [] h = refl
  span_token-whole (c ∷ cs) h = rw (h.0, span_token-whole cs h.1)

  -- A text up to a delimiter, up to a NUL, and up to the end of the buffer.
  pub strtok-delim :
      (done t : List ℕ) (d : ℕ) (rest : List ℕ)
      → IsFree t
      → IsNonempty t
      → (d == 0) ≡ false
      → is_delim d ≡ true
      → strtok is_delim (record { done = done; rest = t ++ d ∷ rest })
        ≡ (some t, record { done = done ++ t ++ 0 ∷ []; rest = rest })
  unfolding strtok
  strtok-delim done [] d rest h n z k = absurd n
  strtok-delim done (c ∷ cs) d rest h n z k = rw (
    right_false (c == 0) (is_delim c) h.0,
    h.0,
    left_false (c == 0) (is_delim c) h.0,
    span_token-free cs d rest h.1 (rw (z, k)),
    z,
    append-nil done,
  )

  pub strtok-end :
      (done t rest : List ℕ)
      → IsFree t
      → IsNonempty t
      → strtok is_delim (record { done = done; rest = t ++ 0 ∷ rest })
        ≡ (some t, record { done = done ++ t; rest = 0 ∷ rest })
  unfolding strtok
  strtok-end done [] rest h n = absurd n
  strtok-end done (c ∷ cs) rest h n = rw (
    right_false (c == 0) (is_delim c) h.0,
    h.0,
    left_false (c == 0) (is_delim c) h.0,
    span_token-free cs 0 rest h.1 refl,
    append-nil done,
  )

  pub strtok-whole :
      (done t : List ℕ)
      → IsFree t
      → IsNonempty t
      → strtok is_delim (record { done = done; rest = t })
        ≡ (some t, record { done = done ++ t; rest = [] })
  unfolding strtok
  strtok-whole done [] h n = absurd n
  strtok-whole done (c ∷ cs) h n = rw (
    right_false (c == 0) (is_delim c) h.0,
    h.0,
    left_false (c == 0) (is_delim c) h.0,
    span_token-whole cs h.1,
    append-nil done,
  )

  pub strtok-nothing :
      (done : List ℕ)
      → strtok is_delim (record { done = done; rest = [] })
        ≡ (none, record { done = done; rest = [] })
  unfolding strtok
  strtok-nothing done = rw (append-nil done)

  skip_delims-short : (t : List ℕ) → length (skip_delims is_delim t).1 ≤ length t
  skip_delims-short [] = omega arith
  skip_delims-short (c ∷ cs) = elim (Bool-cases (is_delim c)) [
    | inl here ↦ rw here (omega (arith, skip_delims-short cs))
    | inr there ↦ rw there (omega arith)
  ]

  span_token-short : (t : List ℕ) → length (span_token is_delim t).1 ≤ length t
  span_token-short [] = omega arith
  span_token-short (c ∷ cs) = elim (Bool-cases (c == 0 || is_delim c)) [
    | inl here ↦ rw here (omega arith)
    | inr there ↦ rw there (omega (arith, span_token-short cs))
  ]

  -- Behind the delimiters there is no delimiter.
  skip_delims-head :
      (t cs : List ℕ) (c : ℕ) → (skip_delims is_delim t).1 ≡ c ∷ cs → is_delim c ≡ false
  skip_delims-head [] cs c e = absurd (ground arith)
  skip_delims-head (x ∷ xs) cs c e = elim (Bool-cases (is_delim x)) [
    | inl here ↦
        let e' : (skip_delims is_delim xs).1 ≡ c ∷ cs = rw here at e in skip_delims-head xs cs c e'
    | inr there ↦ let e' : x ∷ xs ≡ c ∷ cs = rw there at e in ground arith
  ]

  close_token-short : (done t : List ℕ) → length (close_token is_delim done t).rest ≤ length t
  close_token-short done [] = omega arith
  close_token-short done (c ∷ cs) = ground arith

  span_token-progress :
      (f : List ℕ)
      → at_end is_delim f ≡ false
      → ((c : ℕ) (cs : List ℕ) → f ≡ c ∷ cs → is_delim c ≡ false)
      → length (span_token is_delim f).1 < length f
  span_token-progress [] h k = absurd (ground arith)
  span_token-progress (c ∷ cs) h k = rw (h, k c cs refl) (omega (arith, span_token-short cs))

  -- A token takes at least a byte.
  pub strtok-progress :
      (s : Scan) (t : List ℕ)
      → (strtok is_delim s).0 ≡ some t
      → length (strtok is_delim s).1.rest < length s.rest
  unfolding strtok
  strtok-progress s t e = elim (Bool-cases (at_end is_delim front)) [
    | inl stopped ↦ absurd (ground arith)
    | inr more ↦ rw more (
        omega (
          arith,
          close_token-short
              ((s.done ++ (skip_delims is_delim s.rest).0) ++ (span_token is_delim front).0)
              (span_token is_delim front).1,
          span_token-progress front more (λ c cs. skip_delims-head s.rest cs c),
          skip_delims-short s.rest,
        ))
  ]
    where
      front : List ℕ
      front = (skip_delims is_delim s.rest).1
