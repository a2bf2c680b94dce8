-- ===== src/Rand/Strtok/Laws.antt =====
-- strtok with ":" on a text between delimiters.
use mathlib.Core.List.{append-nil, append_assoc}
use kata_load_test.Base.{
  ℕ, ◌≡◌, refl, ap, sym, ◌∙◌, inl, inr, Bool, true, false, none, some, List, [], ◌∷◌, ◌++◌, ◌==◌,
  arith, Bool-cases,
}
use kata_load_test.Rand.Strtok.{
  Scan, buffer_of, is_colon, skip_delims, span_token, close_token, at_end, strtok, has_prefix,
  is_string,
}
use kata_load_test.Rand.Strtok.Tokens.{
  IsNonempty, ends_at, IsFree, strtok-delim, strtok-end, strtok-whole,
}

-- A NUL or a colon.
abbrev pub ends : ℕ → Bool
ends c = ends_at is_colon c

-- Bytes without a NUL or a colon.
abbrev pub IsText : List ℕ → Type 0
IsText t = IsFree is_colon t

not_nul : (c : ℕ) → ends c ≡ false → (c == 0) ≡ false
not_nul c h = ground arith

-- A text up to a colon, up to a NUL, and up to the end of the buffer.
pub strtok-colon :
    (done t rest : List ℕ)
    → IsText t
    → IsNonempty t
    → strtok is_colon (record { done = done; rest = t ++ b':' ∷ rest })
      ≡ (some t, record { done = done ++ t ++ 0 ∷ []; rest = rest })
strtok-colon done t rest h n = strtok-delim is_colon done t b':' rest h n refl refl

pub strtok-nul :
    (done t rest : List ℕ)
    → IsText t
    → IsNonempty t
    → strtok is_colon (record { done = done; rest = t ++ 0 ∷ rest })
      ≡ (some t, record { done = done ++ t; rest = 0 ∷ rest })
strtok-nul done t rest h n = strtok-end is_colon done t rest h n

pub strtok-all :
    (done t : List ℕ)
    → IsText t
    → IsNonempty t
    → strtok is_colon (record { done = done; rest = t })
      ≡ (some t, record { done = done ++ t; rest = [] })
strtok-all done t h n = strtok-whole is_colon done t h n

-- At a NUL there is no token, now and later.
pub strtok-none :
    (done rest : List ℕ)
    → strtok is_colon (record { done = done; rest = 0 ∷ rest })
      ≡ (none, record { done = done; rest = 0 ∷ rest })
unfolding strtok
strtok-none done rest = rw (append-nil done)

close_token-done : (d rest : List ℕ) → (m : List ℕ) × ((close_token is_colon d rest).done ≡ d ++ m)
close_token-done d [] = ([], sym (append-nil d))
close_token-done d (c ∷ cs) = elim (Bool-cases (c == 0)) [
  | inl nul ↦ ([], rw nul (sym (append-nil d)))
  | inr colon ↦ (0 ∷ [], rw colon)
]

-- What strtok has passed stays in front.
pub strtok-done : (s : Scan) → (m : List ℕ) × ((strtok is_colon s).1.done ≡ s.done ++ m)
unfolding strtok
strtok-done s = elim (Bool-cases (at_end is_colon front.1)) [
  | inl stopped ↦ (front.0, rw stopped)
  | inr more ↦
      let (m, e) = close_token-done ((s.done ++ front.0) ++ token.0) token.1 in
      (
        front.0 ++ (token.0 ++ m),
        rw more (
            e
            ∙ append_assoc (s.done ++ front.0) token.0 m
            ∙ append_assoc s.done front.0 (token.0 ++ m)),
      )
]
  where
    front : List ℕ × List ℕ
    front = skip_delims is_colon s.rest

    token : List ℕ × List ℕ
    token = span_token is_colon front.1

pub buffer-strtok : (s : Scan) → (m : List ℕ) × (buffer_of (strtok is_colon s).1 ≡ s.done ++ m)
buffer-strtok s =
    let (m, e) = strtok-done s in
    let rest = (strtok is_colon s).1.rest in
    (m ++ rest, ap (λ d. d ++ rest) e ∙ append_assoc s.done m rest)

-- A prefix without NUL or colon is a prefix of the name.
pub has_prefix-name :
    (p name r r' : List ℕ)
    → IsText p
    → has_prefix p (name ++ b':' ∷ r) ≡ has_prefix p (name ++ 0 ∷ r')
has_prefix-name [] name r r' h = refl
has_prefix-name (c ∷ cs) [] r r' h = ground arith
has_prefix-name (c ∷ cs) (x ∷ name) r r' h = rw (has_prefix-name cs name r r' h.1)

pub is_string-colon :
    (p name r : List ℕ) → IsText p → IsText name → is_string p (name ++ b':' ∷ r) ≡ false
is_string-colon [] [] r h k = refl
is_string-colon [] (x ∷ name) r h k = not_nul x k.0
is_string-colon (c ∷ cs) [] r h k = ground arith
is_string-colon (c ∷ cs) (x ∷ name) r h k = ground (arith, is_string-colon cs name r h.1 k.1)

pub is_string-nul :
    (p name r : List ℕ) → IsText p → IsText name → is_string p (name ++ 0 ∷ r) ≡ true → name ≡ p
is_string-nul [] [] r h k e = refl
is_string-nul [] (x ∷ name) r h k e = ground arith
is_string-nul (c ∷ cs) [] r h k e = ground arith
is_string-nul (c ∷ cs) (x ∷ name) r h k e = ground (arith, is_string-nul cs name r h.1 k.1)
