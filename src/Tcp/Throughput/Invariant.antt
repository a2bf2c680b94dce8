-- ===== src/Tcp/Throughput/Invariant.antt =====
-- The budget of requests stays balanced through any run of `throughput_tcp_main`.
use kata_load_test.Base.{
  ℕ, ◌<◌, ◌≡◌, refl, true, Option, none, some, List, [], ◌∷◌, arith, length, get_elem?, ok, ◌>>=◌,
  >>=-eq-ok, Bool-cases, inl, inr, Outcome, subst, then-eq-ok, ok-injective, All-get,
}
use kata_load_test.Base.Int.{pos, ◌-ℤ◌, ltb_ℤ}
use kata_load_test.Stats.State.{ByteReqPair}
use kata_load_test.AppProto.Response.{AppProto, unit_size}
use kata_load_test.AppProto.Request.{create_request, request_bytes}
use kata_load_test.Tcp.Connection.{TcpConnection, pick_conn}
use kata_load_test.Tcp.Receive.{receive}
use kata_load_test.Tcp.Balance.{
  IsBalanced, IsBounded, IsPicked, send-IsBalanced, read-IsBalanced, keep-IsBalanced,
  pick_conn-IsPicked,
}
use kata_load_test.Tcp.Reads.{IsHonest, IsRead, receive-IsRead}
use kata_load_test.Tcp.Thread.{
  Thread, Readable, EventKind, readable, error_queue, hangup, unknown, Event, Round,
}
use kata_load_test.Tcp.Throughput.{
  throughput_send, throughput_event, throughput_events, throughput_load, throughput_round,
  throughput_run, account_sent, account_read, check_sent,
}

abbrev pub IsBalancedThread : Thread → Type 0
IsBalancedThread t = IsBalanced t.connections t.avail_reqs

throughput_send-IsBalanced :
    (proto : AppProto) (r : Round) (idx : ℕ) (t t' : Thread)
    → IsPicked t.connections idx
    → IsBalancedThread t
    → throughput_send proto r idx t ≡ ok t'
    → IsBalancedThread t'
unfolding throughput_send
throughput_send-IsBalanced proto r idx t t' p b e =
    subst IsBalancedThread (then-eq-ok (check_sent r.send n) after t' (rw p.found at e))
      (send-IsBalanced t.connections t.avail_reqs idx p.conn p.found p.room b)
  where
    n : ℕ
    n = request_bytes (create_request proto r.sample t.per_thread_arg).0

    after : Thread
    after =
        account_sent r idx n p.conn
          (record t { per_thread_arg = (create_request proto r.sample t.per_thread_arg).1 })

-- What the peer sends for this event can be taken, if the event is for one of the connections.
abbrev pub IsHonestAt : AppProto → EventKind → TcpConnection → Type 0
IsHonestAt proto (readable e) c = IsHonest proto e.recv c
IsHonestAt proto (error_queue m q) c = Unit {0}
IsHonestAt proto hangup c = Unit {0}
IsHonestAt proto unknown c = Unit {0}

abbrev pub IsHonestEvent : AppProto → Event → Thread → Type 0
IsHonestEvent proto ev t =
    (c : TcpConnection) → get_elem? t.connections ev.idx ≡ some c → IsHonestAt proto ev.kind c

pub account_read-IsBalanced :
    (e : Readable) (idx : ℕ) (t : Thread) (c c' : TcpConnection) (o : Option ByteReqPair)
    → get_elem? t.connections idx ≡ some c
    → IsBalancedThread t
    → IsRead c c' o
    → IsBalancedThread (account_read e idx (o, c') t)
account_read-IsBalanced e idx t c c' none found b r =
    keep-IsBalanced t.connections t.avail_reqs idx c c' found r.pending r.buffered b
account_read-IsBalanced e idx t c c' (some q) found b r =
    read-IsBalanced t.connections t.avail_reqs idx c c' q.reqs found r.pending r.buffered b

throughput_event-IsBalanced :
    (proto : AppProto) (idx : ℕ) (k : EventKind) (t t' : Thread) (c : TcpConnection)
    → 0 < unit_size proto
    → get_elem? t.connections idx ≡ some c
    → IsHonestAt proto k c
    → IsBalancedThread t
    → throughput_event proto (record { idx = idx; kind = k }) t ≡ ok t'
    → IsBalancedThread t'
unfolding throughput_event
throughput_event-IsBalanced proto idx (readable x) t t' c some_size found h b e =
    let bounded : IsBounded c = All-get IsBounded t.connections idx c b.each found in
    let e' : (receive proto true x.recv c >>= λ got. ok (account_read x idx got t)) ≡ ok t' =
      rw found at e in
    let ((o, c'), run, rest) = >>=-eq-ok (receive proto true x.recv c) _ e' in
    subst IsBalancedThread (ok-injective _ t' rest) (
      account_read-IsBalanced x idx t c c' o found b
        (receive-IsRead proto x.recv c c' o some_size bounded h run))
throughput_event-IsBalanced proto idx (error_queue m q) t t' c some_size found h b e =
    absurd (ground arith)
throughput_event-IsBalanced proto idx hangup t t' c some_size found h b e = absurd (ground arith)
throughput_event-IsBalanced proto idx unknown t t' c some_size found h b e = absurd (ground arith)

-- The peers are honest at each event, in the state that the events before it have left.
abbrev pub HonestEvents : AppProto → List Event → Thread → Type 0
HonestEvents proto [] t = Unit {0}
HonestEvents proto (ev ∷ events) t =
    IsHonestEvent proto ev t
    × ((t' : Thread) → throughput_event proto ev t ≡ ok t' → HonestEvents proto events t')

abbrev pub HonestRound : AppProto → Round → Thread → Type 0
HonestRound proto r t =
    (t' : Thread) → throughput_load proto r t ≡ ok t' → HonestEvents proto r.events t'

abbrev pub HonestRun : AppProto → List Round → Thread → Type 0
HonestRun proto [] t = Unit {0}
HonestRun proto (r ∷ rounds) t =
    HonestRound proto r t
    × ((t' : Thread) → throughput_round proto r t ≡ ok t' → HonestRun proto rounds t')

module _ (proto : AppProto) (some_size : 0 < unit_size proto) where
  any_event-IsBalanced :
      (ev : Event) (t t' : Thread)
      → IsHonestEvent proto ev t
      → IsBalancedThread t
      → throughput_event proto ev t ≡ ok t'
      → IsBalancedThread t'
  any_event-IsBalanced ev t t' h b e =
      let found = found_in (get_elem? t.connections ev.idx) refl in
      throughput_event-IsBalanced proto ev.idx ev.kind t t' found.0 some_size found.1
        (h found.0 found.1) b e
    where
      found_in :
          (o : Option TcpConnection)
          → get_elem? t.connections ev.idx ≡ o
          → (c : TcpConnection) × (get_elem? t.connections ev.idx ≡ some c)
      found_in none q = absurd (unfold throughput_event in ground arith)
      found_in (some c) q = (c, q)

  events-IsBalanced :
      (events : List Event) (t t' : Thread)
      → HonestEvents proto events t
      → IsBalancedThread t
      → throughput_events proto events t ≡ ok t'
      → IsBalancedThread t'
  unfolding throughput_events
  events-IsBalanced [] t t' h b e = subst IsBalancedThread (ok-injective t t' e) b
  events-IsBalanced (ev ∷ events) t t' h b e =
      let (m, run, rest) = >>=-eq-ok (throughput_event proto ev t) _ e in
      events-IsBalanced events m t' (h.1 m run) (any_event-IsBalanced ev t m h.0 b run) rest

  picked-IsBalanced :
      (r : Round) (t t' : Thread) (o : Option ℕ)
      → pick_conn t.connections (length t.connections) r.rand ≡ ok o
      → IsBalancedThread t
      → elim o as (λ _. Outcome Thread) [ none ↦ ok t | some idx ↦ throughput_send proto r idx t ]
        ≡ ok t'
      → IsBalancedThread t'
  picked-IsBalanced r t t' none run b e = subst IsBalancedThread (ok-injective t t' e) b
  picked-IsBalanced r t t' (some idx) run b e =
      throughput_send-IsBalanced proto r idx t t'
        (pick_conn-IsPicked t.connections (length t.connections) r.rand idx run) b e

  load-IsBalanced :
      (r : Round) (t t' : Thread)
      → IsBalancedThread t
      → throughput_load proto r t ≡ ok t'
      → IsBalancedThread t'
  unfolding throughput_load
  load-IsBalanced r t t' b e = elim (Bool-cases (ltb_ℤ (r.now -ℤ t.next_tx) (pos 0))) [
    | inl early ↦ subst IsBalancedThread (ok-injective t t' (rw early at e)) b
    | inr due ↦
        let (o, run, rest) =
          >>=-eq-ok (pick_conn t.connections (length t.connections) r.rand) _ (rw due at e) in
        picked-IsBalanced r t t' o run b rest
  ]

  round-IsBalanced :
      (r : Round) (t t' : Thread)
      → HonestRound proto r t
      → IsBalancedThread t
      → throughput_round proto r t ≡ ok t'
      → IsBalancedThread t'
  unfolding throughput_round
  round-IsBalanced r t t' h b e = elim (Bool-cases r.load) [
    | inl loading ↦
        let (m, run, rest) = >>=-eq-ok (throughput_load proto r t) _ (rw loading at e) in
        events-IsBalanced r.events m t' (h m run) (load-IsBalanced r t m b run) rest
    | inr idle ↦ subst IsBalancedThread (ok-injective _ t' (rw idle at e)) b
  ]

  -- From a balanced thread, through any run of rounds that does not stop the thread, with responses
  -- that are not empty and readable sockets that hold something but no more than the responses
  -- waited for, every connection keeps at most 16 requests waiting and a buffer index inside the buffer, and `avail_reqs` stays
  -- the number of requests that the connections have left of 16 each.
  pub throughput_run-IsBalanced :
      (rounds : List Round) (t t' : Thread)
      → HonestRun proto rounds t
      → IsBalancedThread t
      → throughput_run proto rounds t ≡ ok t'
      → IsBalancedThread t'
  unfolding throughput_run
  throughput_run-IsBalanced [] t t' h b e = subst IsBalancedThread (ok-injective t t' e) b
  throughput_run-IsBalanced (r ∷ rounds) t t' h b e =
      let (m, run, rest) = >>=-eq-ok (throughput_round proto r t) _ e in
      throughput_run-IsBalanced rounds m t' (h.1 m run) (round-IsBalanced r t m h.0 b run) rest
