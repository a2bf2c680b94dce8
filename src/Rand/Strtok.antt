-- ===== src/Rand/Strtok.antt =====
-- strtok of the C library, and the comparisons of strings, on a buffer of bytes. A string ends at a
-- NUL or at the end of the list.
pub mod Tokens
pub mod Laws
use kata_load_test.Base.{
  ℕ, Bool, true, false, ◌&&◌, ◌||◌, Option, none, some, List, [], ◌∷◌, ◌++◌, ◌==◌, if◌then◌else◌,
}

-- `done` are the bytes in front of the pointer that strtok keeps, with the NULs it has written, and
-- `rest` those from it on.
pub record Scan : Type 0 where
  pub done : List ℕ
  pub rest : List ℕ

abbrev pub buffer_of : Scan → List ℕ
buffer_of s = s.done ++ s.rest

abbrev pub at_string : List ℕ → Scan
at_string buf = record { done = []; rest = buf }

-- The delimiter ":".
abbrev pub is_colon : ℕ → Bool
is_colon c = c == b':'

module _ (is_delim : ℕ → Bool) where
  -- The delimiters in front, and what is behind them.
  abbrev pub skip_delims : List ℕ → List ℕ × List ℕ
  skip_delims [] = ([], [])
  skip_delims (c ∷ cs) =
      let rest = skip_delims cs in if is_delim c then (c ∷ rest.0, rest.1) else ([], c ∷ cs)

  -- The token in front, and what is behind it.
  abbrev pub span_token : List ℕ → List ℕ × List ℕ
  span_token [] = ([], [])
  span_token (c ∷ cs) =
      let rest = span_token cs in
      if c == 0 || is_delim c then ([], c ∷ cs) else (c ∷ rest.0, rest.1)

  -- The delimiter behind a token becomes a NUL, and the pointer goes behind it; a NUL stays.
  abbrev pub close_token : List ℕ → List ℕ → Scan
  close_token done [] = record { done = done; rest = [] }
  close_token done (c ∷ cs) =
      if c == 0
      then record { done = done; rest = c ∷ cs }
      else record { done = done ++ 0 ∷ []; rest = cs }

  abbrev pub at_end : List ℕ → Bool
  at_end [] = true
  at_end (c ∷ cs) = c == 0

  unfoldable pub strtok : Scan → Option (List ℕ) × Scan
  strtok s =
      let front = skip_delims s.rest in
      let token = span_token front.1 in
      if at_end front.1
      then (none, record { done = s.done ++ front.0; rest = front.1 })
      else (some token.0, close_token ((s.done ++ front.0) ++ token.0) token.1)

-- strncmp(s, prefix, strlen(prefix)) == 0
abbrev pub has_prefix : List ℕ → List ℕ → Bool
has_prefix [] buf = true
has_prefix (p ∷ ps) [] = false
has_prefix (p ∷ ps) (c ∷ cs) = p == c && has_prefix ps cs

-- strcmp(s, text) == 0
abbrev pub is_string : List ℕ → List ℕ → Bool
is_string [] [] = true
is_string [] (c ∷ cs) = c == 0
is_string (p ∷ ps) [] = false
is_string (p ∷ ps) (c ∷ cs) = p == c && is_string ps cs
