-- ===== src/Tcp/Opening.antt =====
-- `throughput_open_connections` and `latency_open_connections` of lancet/agents/tp_tcp.c, on what
-- the system calls answer.
pub mod Start
use kata_load_test.Base.{
  ℕ, zero, suc, ◌+◌, ◌*◌, ◌/◌, ◌%◌, Bool, true, false, not, Option, none, some, List, [], ◌∷◌, ◌==◌,
  if◌then◌else◌, length, get_elem?, Outcome, ok, stop, assert_failed, bad_access, divide_by_zero,
  exited, ◌>>=◌, ◌>>◌, or_stop, require,
}
use kata_load_test.Base.Int.{ℤ, pos, negsuc, pos_part, ◌-ℤ◌}
use kata_load_test.Stats.State.{
  AgentType, throughput_agent, latency_agent, symmetric_nic_timestamp_agent, symmetric_agent,
  agent_nr,
}
use kata_load_test.Timestamping.Pending.{PendingTxTimestamps, fresh_pending, max_pending_reqs}
use kata_load_test.Agent.Config.{AgentConfig, HostTuple}
use kata_load_test.Tcp.Connection.{TcpConnection, opened}

-- What the system calls answer for one connection: the socket, and whether each further call
-- succeeds. `bind` and `timestamp` are asked for NIC timestamps only.
pub record Answers : Type 0 where
  pub sock : Option ℕ
  pub connect : Bool
  pub nonblock : Bool
  pub send_buffer : Bool
  pub receive_buffer : Bool
  pub bind : Bool
  pub timestamp : Bool
  pub no_delay : Bool
  pub linger : Bool
  pub busy_poll : Bool
  pub epoll_add : Bool

abbrev pub is_nic_agent : AgentType → Bool
is_nic_agent throughput_agent = false
is_nic_agent latency_agent = false
is_nic_agent symmetric_nic_timestamp_agent = true
is_nic_agent symmetric_agent = false
is_nic_agent agent_nr = false

abbrev pub has_rings : AgentType → Bool
has_rings throughput_agent = false
has_rings latency_agent = false
has_rings symmetric_nic_timestamp_agent = true
has_rings symmetric_agent = true
has_rings agent_nr = false

-- What is left when the function returns 0: the connections, their rings, `avail_reqs`, and the
-- target that each connection was connected to.
pub record Opened : Type 0 where
  pub connections : List TcpConnection
  pub per_conn_tx_timestamps : List PendingTxTimestamps
  pub avail_reqs : ℤ
  pub destinations : List HostTuple

-- A return of -1 is `none`.
abbrev pub unless_failed : {A : Type 0} → Bool → Outcome (Option A) → Outcome (Option A)
unless_failed b k = if b then k else ok none

-- exit(1)
abbrev pub unless_exit : {A : Type 0} → Bool → Outcome (Option A) → Outcome (Option A)
unless_exit b k = if b then k else stop (exited 1)

-- `targets[i % get_target_count()]`
abbrev pub destination : List HostTuple → ℕ → Outcome HostTuple
destination targets i = do
  require (not (length targets == 0)) divide_by_zero
  or_stop (get_elem? targets (i % length targets)) bad_access

-- `get_conn_count() / get_thread_count()`, which C rounds towards zero.
abbrev pub per_thread_conn : {R : Type 0} → AgentConfig R → Outcome ℤ
per_thread_conn cfg = quotient cfg.conn_count cfg.thread_count
  where
    quotient : ℤ → ℤ → Outcome ℤ
    quotient (pos a) (pos b) = do require (not (b == 0)) divide_by_zero; ok (pos (a / b))
    quotient (pos a) (negsuc b) = ok (pos 0 -ℤ pos (a / suc b))
    quotient (negsuc a) (pos b) = do
      require (not (b == 0)) divide_by_zero
      ok (pos 0 -ℤ pos (suc a / b))
    quotient (negsuc a) (negsuc b) = ok (pos (suc a / suc b))

-- calloc for an int: a negative number of elements is more than there is memory.
abbrev pub calloc_int : ℤ → Outcome ℕ
calloc_int (pos n) = ok n
calloc_int (negsuc n) = stop assert_failed

-- The body of the loop for connection `i`.
unfoldable pub open_connection :
    AgentType → List HostTuple → ℕ → Answers → Outcome (Option (TcpConnection × HostTuple))
open_connection atype targets i a = elim a.sock [
  | none ↦ ok none
  | some sock ↦ (do
    dest ← destination targets i
    unless_failed a.connect (
        unless_failed a.nonblock (
          unless_failed a.send_buffer (
            unless_failed a.receive_buffer (
              unless_failed (if is_nic_agent atype then a.bind else true) (
                unless_failed (if is_nic_agent atype then a.timestamp else true) (
                  unless_failed a.no_delay (
                    unless_exit a.linger
                      (unless_failed a.epoll_add (ok (some (opened sock i, dest))))))))))))
]

abbrev pub push_opened :
    Option (TcpConnection × HostTuple)
    → Outcome (Option (List TcpConnection × List HostTuple))
    → Outcome (Option (List TcpConnection × List HostTuple))
push_opened none k = ok none
push_opened (some one) k =
    k >>= λ r. elim r [ none ↦ ok none | some rest ↦ ok (some (one.0 ∷ rest.0, one.1 ∷ rest.1)) ]

-- The `n` connections from `i` on.
unfoldable pub open_loop :
    AgentType
    → List HostTuple
    → (ℕ → Answers)
    → ℕ
    → ℕ
    → Outcome (Option (List TcpConnection × List HostTuple))
unfolding open_connection
open_loop atype targets answers zero i = ok (some ([], []))
open_loop atype targets answers (suc n) i = do
  one ← open_connection atype targets i (answers i)
  push_opened one (open_loop atype targets answers n (i + 1))

abbrev pub rings : ℕ → List PendingTxTimestamps
rings zero = []
rings (suc n) = fresh_pending ∷ rings n

abbrev pub rings_of : AgentType → ℕ → List PendingTxTimestamps
rings_of atype n = if has_rings atype then rings n else []

-- `epoll` is whether epoll_create succeeds.
unfoldable pub throughput_open_connections :
    {R : Type 0} → AgentConfig R → Bool → (ℕ → Answers) → Outcome (Option Opened)
unfolding open_loop
throughput_open_connections cfg epoll answers = unless_failed epoll (do
  quotient ← per_thread_conn cfg
  per ← calloc_int quotient
  r ← open_loop cfg.atype cfg.targets answers per 0
  elim r [
    | none ↦ ok none
    | some (connections, destinations) ↦ ok (
        some (record {
          connections = connections;
          per_conn_tx_timestamps = rings_of cfg.atype per;
          avail_reqs = pos (per * max_pending_reqs);
          destinations = destinations;
        }))
  ])

-- The result of calloc is not looked at here. The connection as `latency_open_connections` leaves it: the index stays as calloc has set it.
abbrev pub opened_for_latency : ℕ → TcpConnection
opened_for_latency sock = opened sock 0

unfoldable pub latency_open_connection :
    List HostTuple → ℕ → Answers → Outcome (Option (TcpConnection × HostTuple))
latency_open_connection targets i a = elim a.sock [
  | none ↦ ok none
  | some sock ↦ (do
    dest ← destination targets i
    unless_failed a.connect (
        unless_failed a.no_delay (
          unless_exit a.linger
            (unless_failed a.busy_poll (ok (some (opened_for_latency sock, dest)))))))
]

unfoldable pub latency_open_loop :
    List HostTuple → (ℕ → Answers) → ℕ → ℕ → Outcome (Option (List TcpConnection × List HostTuple))
unfolding latency_open_connection
latency_open_loop targets answers zero i = ok (some ([], []))
latency_open_loop targets answers (suc n) i = do
  one ← latency_open_connection targets i (answers i)
  push_opened one (latency_open_loop targets answers n (i + 1))

unfoldable pub latency_open_connections :
    {R : Type 0}
    → AgentConfig R
    → (ℕ → Answers)
    → Outcome (Option (List TcpConnection × List HostTuple))
unfolding latency_open_loop
latency_open_connections cfg answers =
    per_thread_conn cfg >>= λ per. latency_open_loop cfg.targets answers (pos_part per) 0
