-- ===== src/Tcp/Nic/Run.antt =====
-- The budget of requests stays balanced through any run of `symmetric_nic_tcp_main`.
use kata_load_test.Base.{
  ℕ, ◌<◌, ◌≡◌, refl, sym, ap, ◌∙◌, subst, false, Bool, Option, none, some, List, [], ◌∷◌, arith,
  get_elem?, All-get, ok, >>=-eq-ok, ok-injective, Bool-cases, inl, inr,
}
use kata_load_test.Timespec.{Timespec, is_zero}
use kata_load_test.Timestamping.Extract.{ErrQueue, get_tx_timestamp}
use kata_load_test.Stats.State.{ByteReqPair}
use kata_load_test.AppProto.Response.{AppProto, unit_size}
use kata_load_test.Tcp.Connection.{TcpConnection}
use kata_load_test.Tcp.Receive.{receive}
use kata_load_test.Tcp.Balance.{IsBounded, read-IsBalanced, keep-IsBalanced}
use kata_load_test.Tcp.Reads.{IsHonest, IsRead, receive-IsRead, receive_either}
use kata_load_test.Tcp.Thread.{Thread, ring}
use kata_load_test.Tcp.Throughput.Invariant.{IsBalancedThread}
use kata_load_test.Tcp.Symmetric.{read_error_queue, time_of}
use kata_load_test.Tcp.Nic.{
  NicReadable, NicEventKind, nic_readable, nic_error_queue, nic_hangup, nic_unknown, NicEvent,
  NicRound, nic_match, nic_read, nic_event, nic_events, nic_load, nic_round, nic_run, nic_rx,
  send_fuel, nic_pop, nic_sample,
}
use kata_load_test.Tcp.Nic.Invariant.{nic_sends-IsEnded}

abbrev pub IsCalmAt : AppProto → NicEventKind → TcpConnection → Type 0
IsCalmAt proto (nic_readable e) c = IsHonest proto e.recv c
IsCalmAt proto (nic_error_queue m q) c = Unit {0}
IsCalmAt proto nic_hangup c = Unit {0}
IsCalmAt proto nic_unknown c = Unit {0}

abbrev pub IsCalmEvent : AppProto → NicEvent → Thread → Type 0
IsCalmEvent proto ev t =
    (c : TcpConnection) → get_elem? t.connections ev.idx ≡ some c → IsCalmAt proto ev.kind c

-- The peers send no more than the responses waited for, in the state that the events before have
-- left.
abbrev pub CalmEvents : AppProto → List NicEvent → Thread → Type 0
CalmEvents proto [] t = Unit {0}
CalmEvents proto (ev ∷ events) t =
    IsCalmEvent proto ev t
    × ((t' : Thread) → nic_event proto ev t ≡ ok t' → CalmEvents proto events t')

abbrev pub CalmRound : AppProto → NicRound → Thread → Type 0
CalmRound proto r t = (t' : Thread) → nic_load proto r t ≡ ok t' → CalmEvents proto r.events t'

abbrev pub CalmRun : AppProto → List NicRound → Thread → Type 0
CalmRun proto [] t = Unit {0}
CalmRun proto (r ∷ rounds) t =
    CalmRound proto r t × ((t' : Thread) → nic_round proto r t ≡ ok t' → CalmRun proto rounds t')

-- The connections and the budget are as before.
record IsKept (t t' : Thread) : Type 0 where
  connections : t'.connections ≡ t.connections
  budget : t'.avail_reqs ≡ t.avail_reqs

nic_match-IsKept :
    (e : NicReadable) (rx : Timespec) (reqs : ℕ) (c : TcpConnection) (t t' : Thread)
    → nic_match e rx reqs c t ≡ ok t'
    → IsKept t t'
unfolding nic_match
nic_match-IsKept e rx reqs c t t' h =
    let (p, _, h1) = >>=-eq-ok (ring t c.idx) _ h in
    let ((tx, s), _, h2) =
      >>=-eq-ok
        (nic_pop e reqs (record { ring = p; tx_s = t.tx_s; received_opid = t.received_opid })) _
        h1 in
    let (st, _, h3) = >>=-eq-ok (nic_sample e rx (time_of tx) t.stats) _ h2 in
    record {
      connections = sym (ap (λ u. u.connections) (ok-injective _ t' h3));
      budget = sym (ap (λ u. u.avail_reqs) (ok-injective _ t' h3));
    }

read_error_queue-IsKept :
    (m : Bool) (q : ErrQueue) (c : TcpConnection) (t t' : Thread)
    → read_error_queue m q c t ≡ ok t'
    → IsKept t t'
unfolding read_error_queue
read_error_queue-IsKept m q c t t' h =
    let (p, _, h1) = >>=-eq-ok (ring t c.idx) _ h in
    let (n, _, h2) =
      >>=-eq-ok
        (get_tx_timestamp m q (record { ring = p; tx_s = t.tx_s; received_opid = t.received_opid }))
        _ h1 in
    record {
      connections = sym (ap (λ u. u.connections) (ok-injective _ t' h2));
      budget = sym (ap (λ u. u.avail_reqs) (ok-injective _ t' h2));
    }

IsKept-IsBalancedThread : (t t' : Thread) → IsKept t t' → IsBalancedThread t → IsBalancedThread t'
IsKept-IsBalancedThread t t' k b = rw (k.connections, k.budget) b

nic_read-IsBalancedThread :
    (e : NicReadable) (rx : Timespec) (idx : ℕ) (o : Option ByteReqPair) (c c' : TcpConnection)
    (t t' : Thread)
    → get_elem? t.connections idx ≡ some c
    → IsRead c c' o
    → IsBalancedThread t
    → nic_read e rx idx (o, c') t ≡ ok t'
    → IsBalancedThread t'
unfolding nic_read
nic_read-IsBalancedThread e rx idx none c c' t t' found r b h =
    subst IsBalancedThread (ok-injective _ t' h)
      (keep-IsBalanced t.connections t.avail_reqs idx c c' found r.pending r.buffered b)
nic_read-IsBalancedThread e rx idx (some q) c c' t t' found r b h =
    let (m, run, rest) = >>=-eq-ok (nic_match e rx q.reqs c' t) _ h in
    let k = nic_match-IsKept e rx q.reqs c' t m run in
    subst IsBalancedThread (ok-injective _ t' rest) (
      read-IsBalanced m.connections m.avail_reqs idx c c' q.reqs
        (ap (λ cs. get_elem? cs idx) k.connections ∙ found) r.pending r.buffered
        (IsKept-IsBalancedThread t m k b))

nic_event-IsBalancedThread :
    (proto : AppProto) (idx : ℕ) (k : NicEventKind) (t t' : Thread) (c : TcpConnection)
    → 0 < unit_size proto
    → get_elem? t.connections idx ≡ some c
    → IsCalmAt proto k c
    → IsBalancedThread t
    → nic_event proto (record { idx = idx; kind = k }) t ≡ ok t'
    → IsBalancedThread t'
unfolding nic_event
nic_event-IsBalancedThread proto idx (nic_readable x) t t' c some_size found h b e =
    let ((rx, opid), _, e1) = >>=-eq-ok (nic_rx x t.received_opid) _ (rw found at e) in
    let ((o, c'), run, e2) = >>=-eq-ok (receive proto false x.recv c) _ e1 in
    nic_read-IsBalancedThread x rx idx o c c' (record t { received_opid = opid }) t' found
      (receive-IsRead proto x.recv c c' o some_size
        (All-get IsBounded t.connections idx c b.each found) h
        (receive_either proto x.recv c c' o run))
      (record { each = b.each; balance = b.balance }) e2
nic_event-IsBalancedThread proto idx (nic_error_queue m q) t t' c some_size found h b e =
    IsKept-IsBalancedThread t t' (read_error_queue-IsKept m q c t t' (rw found at e)) b
nic_event-IsBalancedThread proto idx nic_hangup t t' c some_size found h b e = absurd (ground arith)
nic_event-IsBalancedThread proto idx nic_unknown t t' c some_size found h b e =
    subst IsBalancedThread (ok-injective t t' (rw found at e)) b

nic_load-IsBalancedThread :
    (proto : AppProto) (r : NicRound) (t t' : Thread)
    → IsBalancedThread t
    → nic_load proto r t ≡ ok t'
    → IsBalancedThread t'
unfolding nic_load
nic_load-IsBalancedThread proto r t t' b e = elim (Bool-cases (is_zero t.avail_reqs)) [
  | inl spent ↦ subst IsBalancedThread (ok-injective t t' (rw spent at e)) b
  | inr some_left ↦
      (nic_sends-IsEnded (send_fuel t) 0 proto r.attempts t t' b (omega arith)
        (rw some_left at e)).1
]

module _ (proto : AppProto) (some_size : 0 < unit_size proto) where
  any_event-IsBalancedThread :
      (ev : NicEvent) (t t' : Thread)
      → IsCalmEvent proto ev t
      → IsBalancedThread t
      → nic_event proto ev t ≡ ok t'
      → IsBalancedThread t'
  any_event-IsBalancedThread ev t t' h b e =
      let found = found_in (get_elem? t.connections ev.idx) refl in
      nic_event-IsBalancedThread proto ev.idx ev.kind t t' found.0 some_size found.1
        (h found.0 found.1) b e
    where
      found_in :
          (o : Option TcpConnection)
          → get_elem? t.connections ev.idx ≡ o
          → (c : TcpConnection) × (get_elem? t.connections ev.idx ≡ some c)
      found_in none q = absurd (unfold nic_event in ground arith)
      found_in (some c) q = (c, q)

  events-IsBalancedThread :
      (events : List NicEvent) (t t' : Thread)
      → CalmEvents proto events t
      → IsBalancedThread t
      → nic_events proto events t ≡ ok t'
      → IsBalancedThread t'
  unfolding nic_events
  events-IsBalancedThread [] t t' h b e = subst IsBalancedThread (ok-injective t t' e) b
  events-IsBalancedThread (ev ∷ events) t t' h b e =
      let (m, run, rest) = >>=-eq-ok (nic_event proto ev t) _ e in
      events-IsBalancedThread events m t' (h.1 m run) (any_event-IsBalancedThread ev t m h.0 b run)
        rest

  round-IsBalancedThread :
      (r : NicRound) (t t' : Thread)
      → CalmRound proto r t
      → IsBalancedThread t
      → nic_round proto r t ≡ ok t'
      → IsBalancedThread t'
  unfolding nic_round
  round-IsBalancedThread r t t' h b e = elim (Bool-cases r.load) [
    | inl loading ↦
        let (m, run, rest) = >>=-eq-ok (nic_load proto r t) _ (rw loading at e) in
        events-IsBalancedThread r.events m t' (h m run)
          (nic_load-IsBalancedThread proto r t m b run) rest
    | inr idle ↦ subst IsBalancedThread (ok-injective _ t' (rw idle at e)) b
  ]

  -- From a balanced thread, through any run of rounds of the NIC agent that does not stop the
  -- thread, with responses that are not empty and readable sockets that hold something but no more
  -- than the responses waited for, whatever the error queues hold: every connection keeps at most 16
  -- requests waiting and a buffer index inside the buffer, and `avail_reqs` stays the number of
  -- requests that the connections have left of 16 each.
  pub nic_run-IsBalancedThread :
      (rounds : List NicRound) (t t' : Thread)
      → CalmRun proto rounds t
      → IsBalancedThread t
      → nic_run proto rounds t ≡ ok t'
      → IsBalancedThread t'
  unfolding nic_run
  nic_run-IsBalancedThread [] t t' h b e = subst IsBalancedThread (ok-injective t t' e) b
  nic_run-IsBalancedThread (r ∷ rounds) t t' h b e =
      let (m, run, rest) = >>=-eq-ok (nic_round proto r t) _ e in
      nic_run-IsBalancedThread rounds m t' (h.1 m run) (round-IsBalancedThread r t m h.0 b run) rest
