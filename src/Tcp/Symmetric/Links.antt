-- ===== src/Tcp/Symmetric/Links.antt =====
-- Each connection of a symmetric agent and its ring of send times: the times of the requests that
-- wait on the connection wait in the ring.
use mathlib.Core.Option
use kata_load_test.Base.{
  ℕ, zero, suc, ◌+◌, ◌≤◌, ◌≡◌, ◌≢◌, ◌∙◌, refl, subst, some, List, [], ◌∷◌, arith, get_elem?, set,
  length, drop,
}
use kata_load_test.Timespec.{Timespec}
use kata_load_test.Timestamping.Pending.{PendingTxTimestamps}
use kata_load_test.Timestamping.Queue.{IsQueue, waiting}
use kata_load_test.Tcp.Connection.{TcpConnection}

-- No more than `sent` requests have been sent on the connection, at the times `log`, and those of
-- the requests that wait are in the ring, in order.
pub record IsLinked (sent : ℕ) (log : List Timespec) (c : TcpConnection) (p : PendingTxTimestamps)
    : Type 0 where
  pub queue : IsQueue p
  pub waits : p.tail ≡ p.consumed + c.pending_reqs
  pub few : p.head ≤ sent
  pub logged : length log ≡ p.head
  pub history : waiting p ≡ drop p.consumed log

-- The connections from index `i` on, and their rings; `log k` has the send times of connection `k`.
abbrev pub LinkedFrom :
    ℕ → ℕ → (ℕ → List Timespec) → List TcpConnection → List PendingTxTimestamps → Type 0
LinkedFrom i sent log [] [] = Unit {0}
LinkedFrom i sent log [] (p ∷ ps) = ⊥
LinkedFrom i sent log (c ∷ cs) [] = ⊥
LinkedFrom i sent log (c ∷ cs) (p ∷ ps) =
    (c.idx ≡ i) × IsLinked sent (log i) c p × LinkedFrom (i + 1) sent log cs ps

pub LinkedFrom-get :
    (i sent k : ℕ) (log : ℕ → List Timespec) (cs : List TcpConnection)
    (ps : List PendingTxTimestamps) (c : TcpConnection)
    → LinkedFrom i sent log cs ps
    → get_elem? cs k ≡ some c
    → (p : PendingTxTimestamps) × (get_elem? ps k ≡ some p)
      × IsLinked sent (log (i + k)) c p
      × (c.idx ≡ i + k)
LinkedFrom-get i sent k log [] ps c l h = absurd (ground arith)
LinkedFrom-get i sent k log (x ∷ cs) [] c l h = absurd l
LinkedFrom-get i sent zero log (x ∷ cs) (p ∷ ps) c l h =
    let same : x ≡ c = Option.some-injective x c h in
    let at : i ≡ i + 0 = omega arith in
    (
      p,
      refl,
      subst (λ j. IsLinked sent (log j) c p) at (subst (λ y. IsLinked sent (log i) y p) same l.1),
      subst (λ y. y.idx ≡ i + 0) same (l.0 ∙ at),
    )
LinkedFrom-get i sent (suc k) log (x ∷ cs) (p ∷ ps) c l h =
    let (q, found, linked, at) = LinkedFrom-get (i + 1) sent k log cs ps c l.2 h in
    let next : i + 1 + k ≡ i + suc k = omega arith in
    (q, found, subst (λ j. IsLinked sent (log j) c q) next linked, at ∙ next)

pub LinkedFrom-cong :
    (i sent sent' : ℕ) (log log' : ℕ → List Timespec) (cs : List TcpConnection)
    (ps : List PendingTxTimestamps)
    → sent ≤ sent'
    → ((j : ℕ) → i ≤ j → log j ≡ log' j)
    → LinkedFrom i sent log cs ps
    → LinkedFrom i sent' log' cs ps
LinkedFrom-cong i sent sent' log log' [] [] le same l = l
LinkedFrom-cong i sent sent' log log' [] (p ∷ ps) le same l = absurd l
LinkedFrom-cong i sent sent' log log' (c ∷ cs) [] le same l = absurd l
LinkedFrom-cong i sent sent' log log' (c ∷ cs) (p ∷ ps) le same l = (
  l.0,
  subst (λ g. IsLinked sent' g c p) (same i (omega arith))
      (record {
        queue = l.1.queue;
        waits = l.1.waits;
        few = omega (arith, l.1.few);
        logged = l.1.logged;
        history = l.1.history;
      }),
  LinkedFrom-cong (i + 1) sent sent' log log' cs ps le (λ j h. same j (omega arith)) l.2,
)

-- One connection and its ring change, and its log.
pub LinkedFrom-set :
    (i sent sent' k : ℕ) (log log' : ℕ → List Timespec) (cs : List TcpConnection)
    (ps : List PendingTxTimestamps) (c : TcpConnection) (p : PendingTxTimestamps)
    → sent ≤ sent'
    → ((j : ℕ) → j ≢ i + k → log j ≡ log' j)
    → LinkedFrom i sent log cs ps
    → IsLinked sent' (log' (i + k)) c p
    → c.idx ≡ i + k
    → LinkedFrom i sent' log' (set cs k c) (set ps k p)
LinkedFrom-set i sent sent' k log log' [] [] c p le same l n e = l
LinkedFrom-set i sent sent' k log log' [] (q ∷ ps) c p le same l n e = absurd l
LinkedFrom-set i sent sent' k log log' (x ∷ cs) [] c p le same l n e = absurd l
LinkedFrom-set i sent sent' zero log log' (x ∷ cs) (q ∷ ps) c p le same l n e =
    let at : i + 0 ≡ i = omega arith in
    (
      e ∙ at,
      subst (λ j. IsLinked sent' (log' j) c p) at n,
      LinkedFrom-cong (i + 1) sent sent' log log' cs ps le
          (λ j h. same j (λ q. absurd (omega (arith, q)))) l.2,
    )
LinkedFrom-set i sent sent' (suc k) log log' (x ∷ cs) (q ∷ ps) c p le same l n e =
    let next : i + suc k ≡ i + 1 + k = omega arith in
    (
      l.0,
      subst (λ g. IsLinked sent' g x q) (same i (λ w. absurd (omega (arith, w))))
          (record {
            queue = l.1.queue;
            waits = l.1.waits;
            few = omega (arith, l.1.few);
            logged = l.1.logged;
            history = l.1.history;
          }),
      LinkedFrom-set (i + 1) sent sent' k log log' cs ps c p le (λ j h. same j (λ w. h (w ∙ next)))
          l.2 (subst (λ j. IsLinked sent' (log' j) c p) next n) (e ∙ next),
    )
