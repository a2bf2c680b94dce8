-- ===== src/Server/Setup.antt =====
-- The set-up of the threads of lancet/servers/linux-synthetic.c, their loop, and `main`.
use kata_load_test.Base.{
  ℕ, zero, suc, ◌+◌, ◌-◌, Bool, not, Option, none, some, List, [], ◌∷◌, ltb, length, Outcome, ok,
  exited, ◌>>=◌, ◌>>◌, require, assert,
}
use kata_load_test.Base.Int.{ℤ, pos, negsuc}
use kata_load_test.Rand.Libc.{Libc}
use kata_load_test.Timestamping.Setup.{is_nonzero}
use kata_load_test.Agent.Config.{to_uint16}
use kata_load_test.Server.Calls.{ServerCalls, setnonblocking}
use kata_load_test.Server.{ServerEvent, handle_events}

-- Whether a call returned 0.
abbrev pub succeeds : ℤ → Bool
succeeds n = not (is_nonzero n)

-- The set-up of a thread, for the address and the port of `main`: its listening socket and its
-- epoll.
unfoldable pub open_listener : ServerCalls → ℕ → ℕ → Outcome (ℤ × ℤ)
unfolding setnonblocking
open_listener sys s_ip port = do
  require (is_nonzero sys.socket) (exited 1)
  setnonblocking sys sys.socket
  require (succeeds sys.reuse_port) (exited 1)
  require (succeeds sys.reuse_addr) (exited 1)
  require (succeeds (sys.bind s_ip port)) (exited 1)
  require (succeeds sys.listen) (exited 1)
  assert (succeeds (sys.epoll_add sys.epoll_create sys.socket))
  ok (sys.socket, sys.epoll_create)

-- The loop over epoll_wait, for the events that it gives each time; the descriptors of the epoll.
unfoldable pub serve : ServerCalls → ℤ → ℕ → List (List ServerEvent) → List ℕ → Outcome (List ℕ)
unfolding handle_events
serve sys epollfd fuel [] open_fds = ok open_fds
serve sys epollfd fuel (events ∷ more) open_fds = do
  assert (ltb 0 (length events))
  open' ← handle_events sys epollfd fuel events open_fds
  serve sys epollfd fuel more open'

unfoldable pub tcp_thread_main :
    ServerCalls → ℕ → ℕ → ℕ → List (List ServerEvent) → Outcome (List ℕ)
unfolding open_listener serve
tcp_thread_main sys s_ip port fuel events =
    open_listener sys s_ip port >>= λ fds. serve sys fds.1 fuel events []

-- The threads that `main` starts beside its own, of which `created` says which can be had.
unfoldable pub spawn_threads : (ℕ → Bool) → ℕ → ℕ → Outcome (Unit {0})
spawn_threads created i zero = ok tt
spawn_threads created i (suc n) =
    require (created i) (exited 255) >> spawn_threads created (i + 1) n

abbrev pub spawned : ℤ → ℕ
spawned (pos n) = n - 1
spawned (negsuc n) = 0

-- `inet_addr` is given by the C library; the address 0 stands for all interfaces.
abbrev pub address_of : (List ℕ → ℕ) → List (List ℕ) → ℕ
address_of inet_addr (ip ∷ []) = inet_addr ip
address_of inet_addr _ = 0

-- The arguments behind the program's name; the result where there are fewer than two is -1.
unfoldable pub main :
    Libc
    → (List ℕ → ℕ)
    → (ℕ → Bool)
    → ServerCalls
    → ℕ
    → List (List ServerEvent)
    → List (List ℕ)
    → Outcome (Option (List ℕ))
unfolding tcp_thread_main spawn_threads
main L inet_addr created sys fuel events (threads ∷ port ∷ rest) = do
  spawn_threads created 1 (spawned (L.atoi threads))
  fds ← tcp_thread_main sys (address_of inet_addr rest) (to_uint16 (L.atoi port)) fuel events
  ok (some fds)
main L inet_addr created sys fuel events _ = ok none
