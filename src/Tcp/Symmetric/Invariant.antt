-- ===== src/Tcp/Symmetric/Invariant.antt =====
-- The queues of send times stay in step with the requests waiting, through any run of
-- `symmetric_tcp_main`.
use native.Mathlib.Nat.{zero-add}
use kata_load_test.Base.{
  ℕ, ◌+◌, ◌^◌, ◌<◌, ◌≡◌, sym, ap, ◌∙◌, subst, refl, Bool, ◌≢◌, ◌++◌, List, [], ◌∷◌, drop, drop-drop,
  drop-append_left, length-append, Option, none, some, arith, get_elem?, set, ok, ◌>>=◌, >>=-eq-ok,
  then-eq-ok, ok-injective, wrap16, set-get_self,
}
use kata_load_test.Timespec.{Timespec}
use kata_load_test.Stats.State.{ByteReqPair, LatencyStats}
use kata_load_test.Timestamping.Pending.{
  PendingTxTimestamps, push_complete_tx_timestamp, max_pending_reqs,
}
use kata_load_test.Timestamping.Queue.{waiting-push}
use kata_load_test.AppProto.Response.{AppProto}
use kata_load_test.AppProto.Request.{create_request, request_bytes}
use kata_load_test.Tcp.Connection.{TcpConnection}
use kata_load_test.Tcp.Balance.{IsPicked, send-IsBalanced}
use kata_load_test.Tcp.Reads.{IsRead}
use kata_load_test.Tcp.Thread.{Thread, Readable, Round}
use kata_load_test.Tcp.Throughput.{check_sent, account_read}
use kata_load_test.Tcp.Throughput.Invariant.{IsBalancedThread, account_read-IsBalanced}
use kata_load_test.Tcp.Symmetric.{
  stamp_sent, symmetric_send, sample_latency, match_responses, symmetric_read,
}
use kata_load_test.Tcp.Symmetric.Log.{with_time}
use kata_load_test.Tcp.Symmetric.Match.{Matched, match_responses-Matched}
use kata_load_test.Tcp.Symmetric.Links.{IsLinked, LinkedFrom, LinkedFrom-get, LinkedFrom-set}

-- The budget is balanced, and each ring holds, in order, the send times of the requests waiting on
-- its connection: the last ones of `log` for the connection. `sent` bounds the requests sent.
pub record IsInStep (sent : ℕ) (log : ℕ → List Timespec) (t : Thread) : Type 0 where
  pub balanced : IsBalancedThread t
  pub linked : LinkedFrom 0 sent log t.connections t.per_conn_tx_timestamps

push-IsLinked :
    (m : Bool) (ts : Timespec) (sent : ℕ) (log : List Timespec) (c : TcpConnection)
    (p : PendingTxTimestamps) (t : Thread)
    → sent + 1 < 2 ^ 32
    → c.pending_reqs < max_pending_reqs
    → IsLinked sent log c p
    → IsLinked
        (sent + 1)
        (log ++ ts ∷ [])
        (record c { pending_reqs = wrap16 (c.pending_reqs + 1) })
        (push_complete_tx_timestamp m ts p t.tx_s).0
push-IsLinked m ts sent log c p t small room l =
    let (queue, more, consumed, head) =
      waiting-push ts p l.queue (omega (arith, l.waits)) m t.tx_s (omega (arith, l.few)) in
    let still : drop p.consumed (log ++ ts ∷ []) ≡ drop p.consumed log ++ ts ∷ [] =
      drop-append_left p.consumed log (ts ∷ [])
        (omega (arith, l.queue.ordered, l.queue.stamped, l.logged)) in
    record {
      queue = queue;
      waits = omega (arith, queue.stamped, head, consumed, l.waits, l.queue.stamped);
      few = omega (arith, head, l.few);
      logged = omega (arith, head, l.logged, length-append log (ts ∷ []));
      history =
          more
          ∙ (ap (λ w. w ++ ts ∷ []) l.history
              ∙ (sym still ∙ ap (λ k. drop k (log ++ ts ∷ [])) (sym consumed)));
    }

-- The log with one more send time on connection `idx`.
abbrev pub sent_on : ℕ → Timespec → (ℕ → List Timespec) → ℕ → List Timespec
sent_on idx ts log = with_time ts (ok (some idx)) log

sent_on-here :
    (idx : ℕ) (ts : Timespec) (log : ℕ → List Timespec)
    → sent_on idx ts log idx ≡ log idx ++ ts ∷ []
sent_on-here idx ts log = ground arith

sent_on-others :
    (idx : ℕ) (ts : Timespec) (log : ℕ → List Timespec) (j : ℕ)
    → j ≢ idx
    → log j ≡ sent_on idx ts log j
sent_on-others idx ts log j h = ground arith

module _ (r : Round) (idx sent : ℕ) (log : ℕ → List Timespec) (t : Thread) (c : TcpConnection)
    (p : PendingTxTimestamps) (found : get_elem? t.connections idx ≡ some c)
    (here : c.idx ≡ 0 + idx) (linked : IsLinked sent (log (0 + idx)) c p)
    (room : c.pending_reqs < max_pending_reqs) (small : sent + 1 < 2 ^ 32)
    (s : IsInStep sent log t) where
  stamp_sent-IsInStep :
      (n : ℕ) → IsInStep (sent + 1) (sent_on idx r.tx_timestamp log) (stamp_sent r idx n c p t)
  stamp_sent-IsInStep n = record {
    balanced = send-IsBalanced t.connections t.avail_reqs idx c found room s.balanced;
    linked =
        subst
          (λ k.
            LinkedFrom 0 (sent + 1) log' (set t.connections idx c')
              (set t.per_conn_tx_timestamps k p'))
          (sym (here ∙ zero-add idx))
          (LinkedFrom-set 0 sent (sent + 1) idx log log' t.connections t.per_conn_tx_timestamps c'
            p' (omega arith)
            (λ j h. sent_on-others idx r.tx_timestamp log j (λ q. h (q ∙ sym (zero-add idx))))
            s.linked
            (subst (λ g. IsLinked (sent + 1) g c' p') logged_here
              (push-IsLinked r.measure_stamp r.tx_timestamp sent (log (0 + idx)) c p t small room
                linked))
            here);
  }
    where
      log' : ℕ → List Timespec
      log' = sent_on idx r.tx_timestamp log

      c' : TcpConnection
      c' = record c { pending_reqs = wrap16 (c.pending_reqs + 1) }

      p' : PendingTxTimestamps
      p' = (push_complete_tx_timestamp r.measure_stamp r.tx_timestamp p t.tx_s).0

      logged_here : log (0 + idx) ++ r.tx_timestamp ∷ [] ≡ sent_on idx r.tx_timestamp log (0 + idx)
      logged_here =
          subst (λ j. log j ++ r.tx_timestamp ∷ [] ≡ sent_on idx r.tx_timestamp log j)
            (sym (zero-add idx)) (sym (sent_on-here idx r.tx_timestamp log))

pub send-IsInStep :
    (proto : AppProto) (r : Round) (idx sent : ℕ) (log : ℕ → List Timespec) (t t' : Thread)
    → sent + 1 < 2 ^ 32
    → IsPicked t.connections idx
    → IsInStep sent log t
    → symmetric_send proto r idx t ≡ ok t'
    → IsInStep (sent + 1) (sent_on idx r.tx_timestamp log) t'
unfolding symmetric_send
send-IsInStep proto r idx sent log t t' small pk s e =
    let (p, found, linked, here) =
      LinkedFrom-get 0 sent idx log t.connections t.per_conn_tx_timestamps pk.conn s.linked
        pk.found in
    let ring_found : get_elem? t.per_conn_tx_timestamps pk.conn.idx ≡ some p =
      ap (get_elem? t.per_conn_tx_timestamps) (here ∙ zero-add idx) ∙ found in
    subst (IsInStep (sent + 1) (sent_on idx r.tx_timestamp log))
      (then-eq-ok (check_sent r.send n) (stamp_sent r idx n pk.conn p with_arg) t'
        (rw ring_found at (rw pk.found at e)))
      (stamp_sent-IsInStep r idx sent log with_arg pk.conn p pk.found here linked pk.room small
        (record { balanced = s.balanced; linked = s.linked }) n)
  where
    with_arg : Thread
    with_arg = record t { per_thread_arg = (create_request proto r.sample t.per_thread_arg).1 }

    n : ℕ
    n = request_bytes (create_request proto r.sample t.per_thread_arg).0

-- Responses counted on a connection leave as many send times in its ring as requests wait.
module _ (x : Readable) (idx sent : ℕ) (log : ℕ → List Timespec) (t : Thread) (c c' : TcpConnection)
    (p : PendingTxTimestamps) (found : get_elem? t.connections idx ≡ some c)
    (here : c.idx ≡ 0 + idx) (ring_found : get_elem? t.per_conn_tx_timestamps idx ≡ some p)
    (linked : IsLinked sent (log (0 + idx)) c p) (s : IsInStep sent log t) where
  same_idx : {o : Option ByteReqPair} → IsRead c c' o → c'.idx ≡ idx
  same_idx r = r.idx ∙ here ∙ zero-add idx

  read_ring :
      {o : Option ByteReqPair} → IsRead c c' o → get_elem? t.per_conn_tx_timestamps c'.idx ≡ some p
  read_ring r = ap (get_elem? t.per_conn_tx_timestamps) (same_idx r) ∙ ring_found

  relink :
      {o : Option ByteReqPair} (q : PendingTxTimestamps)
      → IsRead c c' o
      → IsLinked sent (log (0 + idx)) c' q
      → LinkedFrom 0 sent log (set t.connections idx c') (set t.per_conn_tx_timestamps idx q)
  relink q r l =
      LinkedFrom-set 0 sent sent idx log log t.connections t.per_conn_tx_timestamps c' q
        (omega arith) (λ j h. refl) s.linked l (r.idx ∙ here)

  closed-IsInStep : IsRead c c' none → IsInStep sent log (account_read x idx (none, c') t)
  closed-IsInStep r = record {
    balanced = account_read-IsBalanced x idx t c c' none found s.balanced r;
    linked =
        subst (LinkedFrom 0 sent log (set t.connections idx c'))
          (set-get_self t.per_conn_tx_timestamps idx p ring_found)
          (relink p r (record {
            queue = linked.queue;
            waits = omega (arith, linked.waits, r.pending);
            few = linked.few;
            logged = linked.logged;
            history = linked.history;
          }));
  }

  -- After the batch is matched.
  matched : ByteReqPair → PendingTxTimestamps → LatencyStats → Thread
  matched reqs q st =
      account_read x idx (some reqs, c')
        (record t { per_conn_tx_timestamps = set t.per_conn_tx_timestamps c'.idx q; stats = st })

  matched-IsInStep :
      (reqs : ByteReqPair) (q : PendingTxTimestamps) (st : LatencyStats) (tx : Timespec)
      → IsRead c c' (some reqs)
      → Matched x reqs.reqs tx p q t.stats
      → IsInStep sent log (matched reqs q st)
  unfolding matched
  matched-IsInStep reqs q st tx r m = record {
    balanced =
        account_read-IsBalanced x idx
          (record t { per_conn_tx_timestamps = set t.per_conn_tx_timestamps c'.idx q; stats = st })
          c c' (some reqs) found s.balanced r;
    linked =
        subst
          (λ k. LinkedFrom 0 sent log (set t.connections idx c') (set t.per_conn_tx_timestamps k q))
          (sym (same_idx r))
          (relink q r (record {
            queue = m.queue;
            waits = omega (
              arith, m.queue.stamped, m.head, m.consumed, linked.queue.stamped, linked.waits,
              r.pending,
            );
            few = omega (arith, m.head, linked.few);
            logged = linked.logged ∙ sym m.head;
            history =
                m.left
                ∙ (ap (drop reqs.reqs) linked.history
                    ∙ (drop-drop p.consumed reqs.reqs (log (0 + idx))
                        ∙ ap (λ k. drop k (log (0 + idx))) (sym m.consumed)));
          }));
  }

  pub read-IsInStep :
      (o : Option ByteReqPair) (t' : Thread)
      → IsRead c c' o
      → symmetric_read x idx (o, c') t ≡ ok t'
      → IsInStep sent log t'
  unfolding symmetric_read matched
  read-IsInStep none t' r e = subst (IsInStep sent log) (ok-injective _ t' e) (closed-IsInStep r)
  read-IsInStep (some reqs) t' r e =
      let (tx, q, _, m) =
        match_responses-Matched x reqs.reqs p t.stats linked.queue r.positive
          (omega (arith, r.pending, linked.waits)) in
      finish tx q m
    where
      finish :
          (tx : Timespec) (q : PendingTxTimestamps)
          → Matched x reqs.reqs tx p q t.stats
          → IsInStep sent log t'
      finish tx q m =
          let e' : (match_responses x reqs.reqs p t.stats >>= λ w. ok (matched reqs w.0 w.1))
              ≡ ok t' =
            rw (read_ring r) at e in
          let e'' : ((sample_latency x (some tx) t.stats >>= λ s'. ok (q, s')) >>= λ w.
          ok (matched reqs w.0 w.1))
              ≡ ok t' =
            rw m.run at e' in
          let (w, run, rest) =
            >>=-eq-ok (sample_latency x (some tx) t.stats >>= λ s'. ok (q, s')) _ e'' in
          let (st, _, last) = >>=-eq-ok (sample_latency x (some tx) t.stats) _ run in
          let rest' : matched reqs q st ≡ t' =
            ap (λ v. matched reqs v.0 v.1) (ok-injective (q, st) w last) ∙ ok-injective _ t' rest in
          subst (IsInStep sent log) rest' (matched-IsInStep reqs q st tx r m)
