-- ===== src/Tcp/Opening/Start.antt =====
-- What `throughput_open_connections` leaves is where the runs of the agents start.
use kata_load_test.Base.{
  ℕ, zero, suc, ◌+◌, ◌*◌, ◌/◌, ◌%◌, ◌^◌, ◌≤◌, ◌<◌, ◌≡◌, refl, arith, true, not, ◌==◌, some, List,
  [], ◌∷◌, length, get_elem?, get_elem?-total, All, Bool, sym, subst, ap, ok, if◌then◌else◌,
}
use kata_load_test.Base.Int.{pos}
use kata_load_test.Stats.State.{AgentType}
use kata_load_test.Timestamping.Pending.{fresh_pending, max_pending_reqs}
use kata_load_test.Agent.Config.{AgentConfig, HostTuple}
use kata_load_test.Tcp.Connection.{TcpConnection, opened}
use kata_load_test.Tcp.Balance.{IsBounded, total_pending}
use kata_load_test.Tcp.Thread.{Thread}
use kata_load_test.Timestamping.Queue.{waiting}
use kata_load_test.Tcp.Symmetric.Links.{IsLinked, LinkedFrom}
use kata_load_test.Tcp.Symmetric.Invariant.{IsInStep}
use kata_load_test.Tcp.Opening.{
  Answers, Opened, has_rings, is_nic_agent, destination, open_connection, open_loop, rings,
  rings_of, per_thread_conn, throughput_open_connections,
}

-- Every system call succeeds.
pub record IsAnswering (a : Answers) : Type 0 where
  pub sock : ℕ
  pub has_sock : a.sock ≡ some sock
  pub connect : a.connect ≡ true
  pub nonblock : a.nonblock ≡ true
  pub send_buffer : a.send_buffer ≡ true
  pub receive_buffer : a.receive_buffer ≡ true
  pub bind : a.bind ≡ true
  pub timestamp : a.timestamp ≡ true
  pub no_delay : a.no_delay ≡ true
  pub linger : a.linger ≡ true
  pub epoll_add : a.epoll_add ≡ true

mod_in : (a n : ℕ) → 0 < n → a % n < n
mod_in a n h = omega arith

module _ (atype : AgentType) (targets : List HostTuple) (some_targets : 0 < length targets) where
  destination-ok :
      (i : ℕ)
      → (h : HostTuple) × (destination targets i ≡ ok h)
        × (get_elem? targets (i % length targets) ≡ some h)
  destination-ok i =
      let (h, found) =
        get_elem?-total targets (i % length targets) (mod_in i (length targets) some_targets) in
      let nonempty : not (length targets == 0) ≡ true = ground arith in
      (h, rw (nonempty, found), found)

  nic_true : {b : Bool} → b ≡ true → (if is_nic_agent atype then b else true) ≡ true
  nic_true e = ground arith

  open_connection-ok :
      (i : ℕ) (a : Answers) (good : IsAnswering a)
      → (h : HostTuple) × (open_connection atype targets i a ≡ ok (some (opened good.sock i, h)))
        × (get_elem? targets (i % length targets) ≡ some h)
  unfolding open_connection
  open_connection-ok i a good =
      let (h, run, found) = destination-ok i in
      (
        h,
        rw (
          good.has_sock,
          run,
          good.connect,
          good.nonblock,
          good.send_buffer,
          good.receive_buffer,
          nic_true good.bind,
          nic_true good.timestamp,
          good.no_delay,
          good.linger,
          good.epoll_add,
        ),
        found,
      )

  -- Connections without requests and bytes, each with an empty ring, and spread over the targets.
  pub record IsFresh (i n : ℕ) (cs : List TcpConnection) (ds : List HostTuple) : Type 0 where
    pub count : length cs ≡ n
    pub bounded : All IsBounded cs
    pub no_requests : total_pending cs ≡ 0
    pub linked : i + n ≤ 2 ^ 16 → LinkedFrom i 0 (λ k. []) cs (rings n)
    pub spread : (k : ℕ) → k < n → get_elem? ds k ≡ get_elem? targets ((i + k) % length targets)

  spread_cons :
      (i n : ℕ) (h : HostTuple) (ds : List HostTuple)
      → get_elem? targets (i % length targets) ≡ some h
      → ((k : ℕ) → k < n → get_elem? ds k ≡ get_elem? targets ((i + 1 + k) % length targets))
      → (k : ℕ) → k < suc n
      → get_elem? (h ∷ ds) k ≡ get_elem? targets ((i + k) % length targets)
  spread_cons i n h ds found rest zero lt = let e : i + 0 ≡ i = omega arith in rw e (sym found)
  spread_cons i n h ds found rest (suc k) lt =
      let e : i + suc k ≡ i + 1 + k = omega arith in rw e (rest k (omega arith))

  opened-IsLinked : (sock i : ℕ) → IsLinked 0 [] (opened sock i) fresh_pending
  unfolding waiting
  opened-IsLinked sock i = record {
    queue = omega arith;
    waits = omega arith;
    few = omega arith;
    logged = refl;
    history = ground arith;
  }

  open_loop-IsFresh :
      (n i : ℕ) (answers : ℕ → Answers)
      → ((k : ℕ) → IsAnswering (answers k))
      → (cs : List TcpConnection) × (ds : List HostTuple) × (open_loop atype targets answers n i
          ≡ ok (some (cs, ds)))
        × IsFresh i n cs ds
  unfolding open_loop
  open_loop-IsFresh zero i answers good = (
    [],
    [],
    refl,
    record {
      count = refl;
      bounded = tt;
      no_requests = refl;
      linked = λ h. tt;
      spread = λ k h. absurd (omega arith);
    },
  )
  open_loop-IsFresh (suc n) i answers good =
      let (h, run, found) = open_connection-ok i (answers i) (good i) in
      let (cs, ds, rest, fresh) = open_loop-IsFresh n (i + 1) answers good in
      let one = opened (good i).sock i in
      (
        one ∷ cs,
        h ∷ ds,
        rw (run, rest),
        record {
          count = ap suc fresh.count;
          bounded = (record { pending = omega arith; buffered = omega arith }, fresh.bounded);
          no_requests = omega (arith, fresh.no_requests);
          linked =
              λ few. (omega arith, opened-IsLinked (good i).sock i, fresh.linked (omega arith));
          spread = spread_cons i n h ds found fresh.spread;
        },
      )

-- A thread that takes what was opened.
abbrev pub with_opened : Opened → Thread → Thread
with_opened o t = record t {
  connections = o.connections;
  per_conn_tx_timestamps = o.per_conn_tx_timestamps;
  avail_reqs = o.avail_reqs;
}

per_thread_conn-pos :
    {R : Type 0} (cfg : AgentConfig R) (conns threads : ℕ)
    → cfg.conn_count ≡ pos conns
    → cfg.thread_count ≡ pos (suc threads)
    → per_thread_conn cfg ≡ ok (pos (conns / suc threads))
per_thread_conn-pos cfg conns threads h k =
    let nonzero : not (suc threads == 0) ≡ true = ground arith in rw (h, k, nonzero)

-- With a positive number of threads, at least one target, and at most 2 ^ 16 connections for each
-- thread of an agent that matches send times: when every system call succeeds, the connections are
-- opened; the thread that takes them is in step with no request sent, which is where the runs of
-- the agents start; and connection `k` goes to target `k` modulo the number of targets.
pub throughput_open_connections-IsInStep :
    {R : Type 0} (cfg : AgentConfig R) (answers : ℕ → Answers) (conns threads : ℕ) (t : Thread)
    → cfg.conn_count ≡ pos conns
    → cfg.thread_count ≡ pos (suc threads)
    → 0 < length cfg.targets
    → has_rings cfg.atype ≡ true
    → conns / suc threads ≤ 2 ^ 16
    → ((k : ℕ) → IsAnswering (answers k))
    → (o : Opened) × (throughput_open_connections cfg true answers ≡ ok (some o))
      × IsInStep 0 (λ k. []) (with_opened o t)
      × ((k : ℕ)
          → k < conns / suc threads
          → get_elem? o.destinations k ≡ get_elem? cfg.targets (k % length cfg.targets))
unfolding throughput_open_connections
throughput_open_connections-IsInStep cfg answers conns threads t has_conns has_threads some_targets
      ring few good =
    let per = conns / suc threads in
    let (cs, ds, run, fresh) =
      open_loop-IsFresh cfg.atype cfg.targets some_targets per 0 answers good in
    let count = fresh.count in
    let none_waiting = fresh.no_requests in
    (
      record {
        connections = cs;
        per_conn_tx_timestamps = rings_of cfg.atype per;
        avail_reqs = pos (per * max_pending_reqs);
        destinations = ds;
      },
      rw (per_thread_conn-pos cfg conns threads has_conns has_threads, run),
      record {
        balanced = record { each = fresh.bounded; balance = omega arith };
        linked = rw ring (fresh.linked (omega arith));
      },
      λ k lt.
          let e : 0 + k ≡ k = omega arith in
          subst (λ x. get_elem? ds k ≡ get_elem? cfg.targets (x % length cfg.targets)) e
            (fresh.spread k lt),
    )
