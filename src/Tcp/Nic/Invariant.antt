-- ===== src/Tcp/Nic/Invariant.antt =====
-- The budget of requests stays balanced through any run of `symmetric_nic_tcp_main`, and its sending
-- loop ends.
use kata_load_test.Base.{
  ℕ, zero, suc, ◌+◌, ◌*◌, ◌≤◌, ◌<◌, ◌≡◌, subst, ◌⊎◌, true, Option, none, some, List, [], ◌∷◌, arith,
  length, length-set, get_elem?, All, wrap16, ok, ◌>>=◌, >>=-eq-ok, ok-injective, Outcome,
  Bool-cases, inl, inr,
}
use kata_load_test.Base.Int.{pos, ◌-ℤ◌, ltb_ℤ}
use kata_load_test.Timestamping.Pending.{PendingTxTimestamps}
use kata_load_test.AppProto.Response.{AppProto}
use kata_load_test.AppProto.Request.{create_request, request_bytes}
use kata_load_test.Tcp.Connection.{TcpConnection, pick_conn}
use kata_load_test.Tcp.Balance.{
  IsBounded, IsPicked, total_pending, total_pending-set, pick_conn-IsPicked, send-IsBalanced,
}
use kata_load_test.Tcp.Thread.{Thread, ring}
use kata_load_test.Tcp.Throughput.{check_sent}
use kata_load_test.Tcp.Throughput.Invariant.{IsBalancedThread}
use kata_load_test.Tcp.Nic.{Attempt, nic_pending, nic_send, nic_sends}

total_pending-IsBounded :
    (cs : List TcpConnection) → All IsBounded cs → total_pending cs ≤ 16 * length cs
total_pending-IsBounded [] b = omega arith
total_pending-IsBounded (c ∷ cs) b =
    let h : IsBounded c = b.0 in omega (arith, total_pending-IsBounded cs b.1, h.pending)

-- One more request is pending.
record IsSent (cs : List TcpConnection) (t' : Thread) : Type 0 where
  balanced : IsBalancedThread t'
  number : length t'.connections ≡ length cs
  more : total_pending t'.connections ≡ total_pending cs + 1

nic_pending-IsSent :
    (a : Attempt) (idx n : ℕ) (c : TcpConnection) (p : PendingTxTimestamps) (t : Thread)
    → get_elem? t.connections idx ≡ some c
    → c.pending_reqs < 16
    → IsBalancedThread t
    → IsSent t.connections (nic_pending a idx n c p t)
nic_pending-IsSent a idx n c p t found room b =
    let c' : TcpConnection = record c { pending_reqs = wrap16 (c.pending_reqs + 1) } in
    record {
      balanced = send-IsBalanced t.connections t.avail_reqs idx c found room b;
      number = length-set t.connections idx c';
      more = omega (arith, total_pending-set t.connections idx c c' found);
    }

nic_send-IsSent :
    (proto : AppProto) (a : Attempt) (idx : ℕ) (t t' : Thread)
    → IsPicked t.connections idx
    → IsBalancedThread t
    → nic_send proto a idx t ≡ ok t'
    → IsSent t.connections t'
unfolding nic_send
nic_send-IsSent proto a idx t t' pk b e =
    let (u, _, e1) = >>=-eq-ok (check_sent a.send n) _ (rw pk.found at e) in
    let (p, _, e2) = >>=-eq-ok (ring t pk.conn.idx) _ e1 in
    subst (IsSent t.connections) (ok-injective _ t' e2)
      (nic_pending-IsSent a idx n pk.conn p with_arg pk.found pk.room b)
  where
    with_arg : Thread
    with_arg = record t { per_thread_arg = (create_request proto a.sample t.per_thread_arg).1 }

    n : ℕ
    n = request_bytes (create_request proto a.sample t.per_thread_arg).0

-- The test by which the sending loop ends.
pub record IsEnded (attempts : ℕ → Attempt) (t : Thread) : Type 0 where
  pub pass : ℕ
  pub reason :
      (ltb_ℤ ((attempts pass).now -ℤ t.next_tx) (pos 0) ≡ true)
      ⊎ (pick_conn t.connections (length t.connections) (attempts pass).rand ≡ ok none)

module _ (proto : AppProto) (attempts : ℕ → Attempt) (fuel i : ℕ) where
  -- A pass that is not early.
  picked-IsEnded :
      (t t' : Thread) (o : Option ℕ)
      → IsBalancedThread t
      → pick_conn t.connections (length t.connections) (attempts i).rand ≡ ok o
      → elim o as (λ _. Outcome Thread) [
        | none ↦ ok t
        | some idx ↦ nic_send proto (attempts i) idx t >>= nic_sends fuel proto attempts (i + 1)
      ]
        ≡ ok t'
      → ((m : Thread)
          → IsSent t.connections m
          → nic_sends fuel proto attempts (i + 1) m ≡ ok t'
          → IsEnded attempts t' × IsBalancedThread t')
      → IsEnded attempts t' × IsBalancedThread t'
  picked-IsEnded t t' none b run rest again =
      subst (λ u. IsEnded attempts u × IsBalancedThread u) (ok-injective t t' rest)
        (record { pass = i; reason = inr run }, b)
  picked-IsEnded t t' (some idx) b run rest again =
      let (m, send_run, more) = >>=-eq-ok (nic_send proto (attempts i) idx t) _ rest in
      again m
        (nic_send-IsSent proto (attempts i) idx t m
          (pick_conn-IsPicked t.connections (length t.connections) (attempts i).rand idx run) b
          send_run)
        more

-- From a balanced thread, with more fuel than the connections have room for requests, and if
-- nothing stops the thread: the sending loop ends by its own tests, since the agent is not late or
-- no connection can be picked, and the budget stays balanced.
pub nic_sends-IsEnded :
    (fuel i : ℕ) (proto : AppProto) (attempts : ℕ → Attempt) (t t' : Thread)
    → IsBalancedThread t
    → 16 * length t.connections < fuel + total_pending t.connections
    → nic_sends fuel proto attempts i t ≡ ok t'
    → IsEnded attempts t' × IsBalancedThread t'
unfolding nic_sends
nic_sends-IsEnded zero i proto attempts t t' b enough e =
    absurd (omega (arith, total_pending-IsBounded t.connections b.each))
nic_sends-IsEnded (suc fuel) i proto attempts t t' b enough e =
    elim (Bool-cases (ltb_ℤ ((attempts i).now -ℤ t.next_tx) (pos 0))) [
      | inl early ↦
          subst (λ u. IsEnded attempts u × IsBalancedThread u)
            (ok-injective t t' (rw (early, nic_sends) at e))
            (record { pass = i; reason = inl early }, b)
      | inr late ↦
          let (o, run, rest) =
            >>=-eq-ok (pick_conn t.connections (length t.connections) (attempts i).rand) _
              (rw (late, nic_sends) at e) in
          picked-IsEnded proto attempts fuel i t t' o b run rest (λ m s more.
            nic_sends-IsEnded fuel (i + 1) proto attempts m t' s.balanced
              (omega (arith, enough, s.number, s.more)) more)
    ]
