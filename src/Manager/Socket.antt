-- ===== src/Manager/Socket.antt =====
-- The listening socket of lancet/agents/manager.c, and `manager_run` with it.
pub mod Laws
use kata_load_test.Base.{
  ℕ, Bool, not, ◌&&◌, Option, some, List, [], Outcome, ok, stop, exited, ◌>>=◌, ◌>>◌, require,
  if◌then◌else◌,
}
use kata_load_test.Base.Int.{ℤ, pos, negsuc, ltb_ℤ}
use kata_load_test.Rand.Real.{Real}
use kata_load_test.Stats.Sort.{Sort}
use kata_load_test.Manager.Wire.{Field}
use kata_load_test.Manager.State.{Manager, Outside}
use kata_load_test.Manager.{manager_loop}

-- An address for `bind`; INADDR_ANY is the address 0.
pub record Address : Type 0 where
  pub sin_addr : ℕ
  pub sin_port : ℕ

-- What the system calls on the sockets return; `set_linger` is setsockopt with SO_LINGER, for a
-- descriptor, the two members of `struct linger`.
pub record Sockets : Type 0 where
  pub socket : ℤ
  pub bind : ℤ → Address → ℤ
  pub accept : ℤ → ℤ
  pub set_linger : ℤ → ℕ → ℕ → ℤ

-- MANAGER_PORT
abbrev pub manager_port : ℕ
manager_port = 5001

abbrev pub minus_one : ℤ
minus_one = negsuc 0

abbrev pub is_negative : ℤ → Bool
is_negative n = ltb_ℤ n (pos 0)

abbrev pub is_zero : ℤ → Bool
is_zero n = not (ltb_ℤ n (pos 0)) && not (ltb_ℤ (pos 0) n)

-- The result of `listen` is not looked at.
unfoldable pub create_socket : Sockets → ℤ
create_socket sys =
    if is_negative sys.socket
    then minus_one
    else if is_negative (sys.bind sys.socket (record { sin_addr = 0; sin_port = manager_port }))
    then minus_one
    else sys.socket

-- The option is set before the descriptor is looked at.
unfoldable pub accept_conn : Sockets → ℤ → Outcome ℤ
accept_conn sys fd = do
  let sockfd = sys.accept fd
  require (is_zero (sys.set_linger sockfd 1 0)) (exited 1)
  ok (if is_negative sockfd then minus_one else sockfd)

module _ (F : Real) (Q : Sort) (double_of : List ℕ → F.R) where
  open F use {R}

  abbrev pub run_on :
      List (Outside R) → Manager R → ℤ → Outcome (Option ℤ × List (List (Field R)) × Manager R)
  run_on rounds s newsockfd =
      if is_negative newsockfd
      then ok (some minus_one, [], s)
      else manager_loop F Q double_of rounds s

  -- What it returns, if it does in these rounds, the replies, and the state.
  unfoldable pub manager_run :
      Sockets
      → List (Outside R)
      → Manager R
      → Outcome (Option ℤ × List (List (Field R)) × Manager R)
  manager_run sys rounds s =
      if is_negative (create_socket sys)
      then ok (some minus_one, [], s)
      else (accept_conn sys (create_socket sys) >>= run_on rounds s)
