-- ===== src/Manager/Socket/Laws.antt =====
-- What the manager's connection is.
use kata_load_test.Base.{
  ℕ, ◌≡◌, ◌⊎◌, inl, inr, Bool-cases, arith, refl, true, false, ok, stop, exited,
}
use kata_load_test.Base.Int.{ℤ, pos, ◌≤ℤ◌}
use kata_load_test.Manager.Socket.{Sockets, is_zero, is_negative, accept_conn}

-- If setsockopt fails on a negative descriptor, then `accept_conn` never returns an
-- error: it gives the descriptor that accept gave, which is not negative, or the process leaves with status 1, also where
-- accept fails.
pub accept_conn-cases :
    (sys : Sockets) (fd : ℤ)
    → ((n : ℤ) (on : ℕ) (linger : ℕ)
        → is_negative n ≡ true
        → is_zero (sys.set_linger n on linger) ≡ false)
    → ((accept_conn sys fd ≡ ok (sys.accept fd)) × (pos 0 ≤ℤ sys.accept fd))
      ⊎ (accept_conn sys fd ≡ stop (exited 1))
unfolding accept_conn
accept_conn-cases sys fd refuses = elim (Bool-cases (is_negative (sys.accept fd))) [
  | inl bad ↦ let e = refuses (sys.accept fd) 1 0 bad in inr (ground (arith, e))
  | inr good ↦ elim (Bool-cases (is_zero (sys.set_linger (sys.accept fd) 1 0))) [
    | inl set ↦ inl (rw (set, good) refl, ground (arith, good))
    | inr no_linger ↦ inr (rw no_linger refl)
  ]
]
