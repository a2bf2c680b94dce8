-- ===== src/Tcp/Symmetric/Run.antt =====
-- Any run of `symmetric_tcp_main` keeps the queues of send times in step with the requests waiting.
use kata_load_test.Base.{
  ℕ, ◌+◌, ◌^◌, ◌<◌, ◌≡◌, refl, sym, ap, ◌∙◌, subst, Bool, true, false, Option, none, some, List, [],
  ◌∷◌, arith, length, get_elem?, ok, ◌>>=◌, >>=-eq-ok, ok-injective, Outcome, Bool-cases, inl, inr,
  All-get, set-get_self,
}
use native.Mathlib.Nat.{zero-add}
use kata_load_test.Base.Int.{pos, ◌-ℤ◌, ltb_ℤ}
use kata_load_test.Timestamping.Extract.{nothing, get_tx_timestamp}
use kata_load_test.AppProto.Response.{AppProto, unit_size}
use kata_load_test.Tcp.Connection.{TcpConnection, pick_conn}
use kata_load_test.Tcp.Receive.{receive}
use kata_load_test.Tcp.Balance.{IsBounded, picked_one, pick_conn-IsPicked}
use kata_load_test.Tcp.Reads.{IsHonest, receive-IsRead, receive_either}
use kata_load_test.Tcp.Thread.{
  Thread, EventKind, readable, error_queue, hangup, unknown, Event, Round,
}
use kata_load_test.Tcp.Symmetric.{
  symmetric_send, symmetric_read, read_error_queue, symmetric_event, symmetric_events,
  symmetric_load, symmetric_round, symmetric_run,
}
use kata_load_test.Tcp.Symmetric.Links.{LinkedFrom, LinkedFrom-get}
use kata_load_test.Timespec.{Timespec}
use kata_load_test.Tcp.Symmetric.Log.{
  round_pick, round_sends, round_log, run_sends, run_log, with_time,
}
use kata_load_test.Tcp.Symmetric.Invariant.{IsInStep, send-IsInStep, read-IsInStep}

-- The peer sends no more than the responses waited for, and the socket's error queue, which this
-- agent never asks the kernel to fill, holds no send time.
abbrev pub IsFairAt : AppProto → EventKind → TcpConnection → Type 0
IsFairAt proto (readable e) c = IsHonest proto e.recv c
IsFairAt proto (error_queue m q) c = q ≡ nothing
IsFairAt proto hangup c = Unit {0}
IsFairAt proto unknown c = Unit {0}

abbrev pub IsFairEvent : AppProto → Event → Thread → Type 0
IsFairEvent proto ev t =
    (c : TcpConnection) → get_elem? t.connections ev.idx ≡ some c → IsFairAt proto ev.kind c

-- Fair at each event, in the state that the events before it have left.
abbrev pub FairEvents : AppProto → List Event → Thread → Type 0
FairEvents proto [] t = Unit {0}
FairEvents proto (ev ∷ events) t =
    IsFairEvent proto ev t
    × ((t' : Thread) → symmetric_event proto ev t ≡ ok t' → FairEvents proto events t')

abbrev pub FairRound : AppProto → Round → Thread → Type 0
FairRound proto r t =
    (t' : Thread) → symmetric_load proto r t ≡ ok t' → FairEvents proto r.events t'

abbrev pub FairRun : AppProto → List Round → Thread → Type 0
FairRun proto [] t = Unit {0}
FairRun proto (r ∷ rounds) t =
    FairRound proto r t
    × ((t' : Thread) → symmetric_round proto r t ≡ ok t' → FairRun proto rounds t')

error-IsInStep :
    (m : Bool) (idx sent : ℕ) (log : ℕ → List Timespec) (t t' : Thread) (c : TcpConnection)
    → get_elem? t.connections idx ≡ some c
    → IsInStep sent log t
    → read_error_queue m nothing c t ≡ ok t'
    → IsInStep sent log t'
unfolding read_error_queue get_tx_timestamp
error-IsInStep m idx sent log t t' c found s e =
    let (p, ring_found, _, here) =
      LinkedFrom-get 0 sent idx log t.connections t.per_conn_tx_timestamps c s.linked found in
    let at : get_elem? t.per_conn_tx_timestamps c.idx ≡ some p =
      ap (get_elem? t.per_conn_tx_timestamps) (here ∙ zero-add idx) ∙ ring_found in
    subst (IsInStep sent log) (ok-injective _ t' (rw at at e)) (record {
      balanced = s.balanced;
      linked =
          subst (LinkedFrom 0 sent log t.connections)
            (sym (set-get_self t.per_conn_tx_timestamps c.idx p at)) s.linked;
    })

event-IsInStep :
    (proto : AppProto) (idx sent : ℕ) (log : ℕ → List Timespec) (k : EventKind) (t t' : Thread)
    (c : TcpConnection)
    → 0 < unit_size proto
    → get_elem? t.connections idx ≡ some c
    → IsFairAt proto k c
    → IsInStep sent log t
    → symmetric_event proto (record { idx = idx; kind = k }) t ≡ ok t'
    → IsInStep sent log t'
unfolding symmetric_event
event-IsInStep proto idx sent log (readable x) t t' c some_size found h s e =
    let bounded : IsBounded c = All-get IsBounded t.connections idx c s.balanced.each found in
    let e' : (receive proto false x.recv c >>= λ got. symmetric_read x idx got t) ≡ ok t' =
      rw found at e in
    let ((o, c'), run, rest) = >>=-eq-ok (receive proto false x.recv c) _ e' in
    let (p, ring_found, linked, here) =
      LinkedFrom-get 0 sent idx log t.connections t.per_conn_tx_timestamps c s.linked found in
    read-IsInStep x idx sent log t c c' p found here ring_found linked s o t'
      (receive-IsRead proto x.recv c c' o some_size bounded h
        (receive_either proto x.recv c c' o run))
      rest
event-IsInStep proto idx sent log (error_queue m q) t t' c some_size found h s e =
    error-IsInStep m idx sent log t t' c found s
      (subst (λ w. read_error_queue m w c t ≡ ok t') h (rw found at e))
event-IsInStep proto idx sent log hangup t t' c some_size found h s e = absurd (ground arith)
event-IsInStep proto idx sent log unknown t t' c some_size found h s e =
    subst (IsInStep sent log) (ok-injective t t' (rw found at e)) s

module _ (proto : AppProto) (some_size : 0 < unit_size proto) where
  any_event-IsInStep :
      (sent : ℕ) (log : ℕ → List Timespec) (ev : Event) (t t' : Thread)
      → IsFairEvent proto ev t
      → IsInStep sent log t
      → symmetric_event proto ev t ≡ ok t'
      → IsInStep sent log t'
  any_event-IsInStep sent log ev t t' h s e =
      let found = found_in (get_elem? t.connections ev.idx) refl in
      event-IsInStep proto ev.idx sent log ev.kind t t' found.0 some_size found.1
        (h found.0 found.1) s e
    where
      found_in :
          (o : Option TcpConnection)
          → get_elem? t.connections ev.idx ≡ o
          → (c : TcpConnection) × (get_elem? t.connections ev.idx ≡ some c)
      found_in none q = absurd (unfold symmetric_event in ground arith)
      found_in (some c) q = (c, q)

  events-IsInStep :
      (sent : ℕ) (log : ℕ → List Timespec) (events : List Event) (t t' : Thread)
      → FairEvents proto events t
      → IsInStep sent log t
      → symmetric_events proto events t ≡ ok t'
      → IsInStep sent log t'
  unfolding symmetric_events
  events-IsInStep sent log [] t t' h s e = subst (IsInStep sent log) (ok-injective t t' e) s
  events-IsInStep sent log (ev ∷ events) t t' h s e =
      let (m, run, rest) = >>=-eq-ok (symmetric_event proto ev t) _ e in
      events-IsInStep sent log events m t' (h.1 m run)
        (any_event-IsInStep sent log ev t m h.0 s run) rest

  picked-IsInStep :
      (r : Round) (sent : ℕ) (log : ℕ → List Timespec) (t t' : Thread) (o : Option ℕ)
      → sent + picked_one (ok o) < 2 ^ 32
      → pick_conn t.connections (length t.connections) r.rand ≡ ok o
      → IsInStep sent log t
      → elim o as (λ _. Outcome Thread) [ none ↦ ok t | some idx ↦ symmetric_send proto r idx t ]
        ≡ ok t'
      → IsInStep (sent + picked_one (ok o)) (with_time r.tx_timestamp (ok o) log) t'
  picked-IsInStep r sent log t t' none small run s e =
      let same : sent ≡ sent + 0 = omega arith in
      subst (λ k. IsInStep k log t') same (subst (IsInStep sent log) (ok-injective t t' e) s)
  picked-IsInStep r sent log t t' (some idx) small run s e =
      send-IsInStep proto r idx sent log t t' small
        (pick_conn-IsPicked t.connections (length t.connections) r.rand idx run) s e

  -- What the round picks decides how many requests it counts, and on which connection.
  counted-IsInStep :
      (r : Round) (sent : ℕ) (log : ℕ → List Timespec) (t t' : Thread) (o : Option ℕ)
      → round_pick r t ≡ ok o
      → IsInStep (sent + picked_one (ok o)) (with_time r.tx_timestamp (ok o) log) t'
      → IsInStep (sent + round_sends r t) (round_log r t log) t'
  counted-IsInStep r sent log t t' o pick s =
      subst (λ w. IsInStep (sent + picked_one w) (with_time r.tx_timestamp w log) t') (sym pick) s

  idle-IsInStep :
      (r : Round) (sent : ℕ) (log : ℕ → List Timespec) (t t' : Thread)
      → round_pick r t ≡ ok none
      → IsInStep sent log t'
      → IsInStep (sent + round_sends r t) (round_log r t log) t'
  idle-IsInStep r sent log t t' pick s =
      let same : sent ≡ sent + 0 = omega arith in
      counted-IsInStep r sent log t t' none pick (subst (λ k. IsInStep k log t') same s)

  load-IsInStep :
      (r : Round) (sent : ℕ) (log : ℕ → List Timespec) (t t' : Thread)
      → r.load ≡ true
      → sent + round_sends r t < 2 ^ 32
      → IsInStep sent log t
      → symmetric_load proto r t ≡ ok t'
      → IsInStep (sent + round_sends r t) (round_log r t log) t'
  unfolding symmetric_load
  load-IsInStep r sent log t t' load small s e =
      elim (Bool-cases (ltb_ℤ (r.now -ℤ t.next_tx) (pos 0))) [
        | inl early ↦
            let pick : round_pick r t ≡ ok none = rw (load, early) in
            idle-IsInStep r sent log t t' pick
              (subst (IsInStep sent log) (ok-injective t t' (rw early at e)) s)
        | inr due ↦
            let (o, run, rest) =
              >>=-eq-ok (pick_conn t.connections (length t.connections) r.rand) _ (rw due at e) in
            let pick : round_pick r t ≡ ok o = rw (load, due, run) in
            let few : sent + picked_one (ok o) < 2 ^ 32 =
              subst (λ w. sent + picked_one w < 2 ^ 32) pick small in
            counted-IsInStep r sent log t t' o pick
              (picked-IsInStep r sent log t t' o few run s rest)
      ]

  round-IsInStep :
      (r : Round) (sent : ℕ) (log : ℕ → List Timespec) (t t' : Thread)
      → sent + round_sends r t < 2 ^ 32
      → FairRound proto r t
      → IsInStep sent log t
      → symmetric_round proto r t ≡ ok t'
      → IsInStep (sent + round_sends r t) (round_log r t log) t'
  unfolding symmetric_round
  round-IsInStep r sent log t t' small h s e = elim (Bool-cases r.load) [
    | inl loading ↦
        let (m, run, rest) = >>=-eq-ok (symmetric_load proto r t) _ (rw loading at e) in
        events-IsInStep (sent + round_sends r t) (round_log r t log) r.events m t' (h m run)
          (load-IsInStep r sent log t m loading small s run) rest
    | inr idle ↦
        let pick : round_pick r t ≡ ok none = rw idle in
        idle-IsInStep r sent log t t' pick (
          subst (IsInStep sent log) (ok-injective _ t' (rw idle at e))
            (record { balanced = s.balanced; linked = s.linked }))
  ]

  -- From a thread that is in step with the requests sent before and their times, through any run of
  -- rounds that does not stop the thread, with responses that are not empty, fewer than 2^32
  -- requests sent before and in the run, readable sockets that hold something but no more than the
  -- responses waited for, and no hardware send times: the budget of requests stays balanced, and
  -- each connection's ring holds, in order, the send times of exactly the requests that wait on the
  -- connection, which are the last ones that were sent on it.
  pub symmetric_run-IsInStep :
      (rounds : List Round) (sent : ℕ) (log : ℕ → List Timespec) (t t' : Thread)
      → sent + run_sends proto rounds t < 2 ^ 32
      → FairRun proto rounds t
      → IsInStep sent log t
      → symmetric_run proto rounds t ≡ ok t'
      → IsInStep (sent + run_sends proto rounds t) (run_log proto rounds t log) t'
  unfolding symmetric_run
  symmetric_run-IsInStep [] sent log t t' small h s e =
      let same : sent ≡ sent + 0 = omega arith in
      subst (λ k. IsInStep k log t') same (subst (IsInStep sent log) (ok-injective t t' e) s)
  symmetric_run-IsInStep (r ∷ rounds) sent log t t' small h s e =
      let (m, run, rest) = >>=-eq-ok (symmetric_round proto r t) _ e in
      let sends : run_sends proto (r ∷ rounds) t ≡ round_sends r t + run_sends proto rounds m =
        rw run in
      let logs : run_log proto (r ∷ rounds) t log ≡ run_log proto rounds m (round_log r t log) =
        rw run in
      let all : sent + round_sends r t + run_sends proto rounds m
          ≡ sent + run_sends proto (r ∷ rounds) t =
        omega (arith, sends) in
      subst (λ g. IsInStep (sent + run_sends proto (r ∷ rounds) t) g t') (sym logs)
        (subst (λ k. IsInStep k (run_log proto rounds m (round_log r t log)) t') all
          (symmetric_run-IsInStep rounds (sent + round_sends r t) (round_log r t log) m t'
            (omega (arith, sends)) (h.1 m run)
            (round-IsInStep r sent log t m (omega (arith, sends)) h.0 s run) rest))
