-- ===== src/Server.antt =====
-- lancet/servers/linux-synthetic.c: the server of the synthetic protocol, which spins for as many
-- microseconds as a request says and answers.
pub mod Calls
pub mod Setup
pub mod Laws
mod Tests
use kata_load_test.Base.{
  ℕ, zero, suc, ◌+◌, ◌-◌, ◌*◌, ◌^◌, Bool, not, Option, none, some, List, [], ◌∷◌, ◌++◌, ltb, ◌==◌,
  if◌then◌else◌, length, Outcome, ok, stop, assert_failed, exited, ◌>>=◌, ◌>>◌, or_stop, require,
  assert,
}
use kata_load_test.Server.Calls.{ServerCalls, setnonblocking, epoll_ctl_add}
use kata_load_test.Base.Int.{ℤ, pos, negsuc, ◌+ℤ◌, ltb_ℤ}

-- Bytes as the number that they are in memory, lowest first; eight of them as a long.
abbrev pub little_endian : List ℕ → ℕ
little_endian [] = 0
little_endian (c ∷ cs) = c + 256 * little_endian cs

abbrev pub to_long : ℕ → ℤ
to_long n = if ltb n (2 ^ 63) then pos n else negsuc (2 ^ 64 - 1 - n)

-- sizeof(long)
abbrev pub size_of_long : ℕ
size_of_long = 8

module _ (clock : ℕ → ℤ) where
  -- The loop of `spin` from reading `k` of the clock on, on fuel: the reading that ends it.
  unfoldable pub spin_loop : ℤ → ℕ → ℕ → Option ℕ
  spin_loop deadline zero k = none
  spin_loop deadline (suc fuel) k =
      let rest = spin_loop deadline fuel (k + 1) in
      if ltb_ℤ (clock k) deadline then rest else some k

  unfoldable pub spin : ℤ → ℕ → Option ℕ
  unfolding spin_loop
  spin usecs fuel = spin_loop (clock 0 +ℤ usecs) fuel 1

  -- `received` is what read gives (`none` for -1), `written` what write returns. The result is the
  -- reading of the clock at which the spinning ended; `none` if it did not within the fuel.
  unfoldable pub process_req : Option (List ℕ) → Option ℕ → ℕ → Outcome (Option ℕ)
  process_req received written fuel = do
    bytes ← or_stop received assert_failed
    assert (length bytes == size_of_long)
    elim (spin (to_long (little_endian bytes)) fuel) [
      | none ↦ ok none
      | some k ↦ (do ret ← or_stop written assert_failed; assert (ret == size_of_long); ok (some k))
    ]

-- An event of the server's epoll: its `data`, whether it is a hangup or an error, and what the
-- system calls answer. The listening socket has the data 0.
pub record ServerEvent : Type 0 where
  pub fd : ℕ
  pub hangup : Bool
  pub accepted : Option ℕ
  pub no_delay : Bool
  pub received : Option (List ℕ)
  pub written : Option ℕ
  pub clock : ℕ → ℤ

-- The sockets of the thread's epoll.
abbrev pub remove_fd : ℕ → List ℕ → List ℕ
remove_fd fd [] = []
remove_fd fd (x ∷ xs) = let rest = remove_fd fd xs in if fd == x then rest else x ∷ rest

abbrev pub accept_connection : ServerCalls → ℤ → ServerEvent → List ℕ → Outcome (List ℕ)
accept_connection sys epollfd e open_fds = do
  conn_sock ← or_stop e.accepted (exited 1)
  setnonblocking sys (pos conn_sock)
  require e.no_delay (exited 1)
  epoll_ctl_add sys epollfd (pos conn_sock)
  ok (open_fds ++ conn_sock ∷ [])

-- The body of the loop over the events, with fuel for the spinning.
unfoldable pub handle_event : ServerCalls → ℤ → ℕ → ServerEvent → List ℕ → Outcome (List ℕ)
unfolding process_req setnonblocking epoll_ctl_add
handle_event sys epollfd fuel e open_fds =
    if e.fd == 0
    then accept_connection sys epollfd e open_fds
    else if e.hangup
    then ok (remove_fd e.fd open_fds)
    else (process_req e.clock e.received e.written fuel >>= λ _. ok open_fds)

unfoldable pub handle_events : ServerCalls → ℤ → ℕ → List ServerEvent → List ℕ → Outcome (List ℕ)
unfolding handle_event
handle_events sys epollfd fuel [] open_fds = ok open_fds
handle_events sys epollfd fuel (e ∷ es) open_fds =
    handle_event sys epollfd fuel e open_fds >>= handle_events sys epollfd fuel es
