-- ===== src/Tcp/Tests/Opening.antt =====
-- Two connections to one target.
use kata_load_test.Base.{ℕ, ◌<◌, ◌%◌, ◌≡◌, refl, true, some, [], ◌∷◌, length, get_elem?, arith, ok}
use kata_load_test.Base.Int.{ℤ, pos}
use kata_load_test.Stats.State.{symmetric_agent}
use kata_load_test.Agent.Config.{AgentConfig, calloc_config}
use kata_load_test.Tcp.Symmetric.Invariant.{IsInStep}
use kata_load_test.Tcp.Opening.{Answers, Opened, throughput_open_connections}
use kata_load_test.Tcp.Opening.Start.{
  IsAnswering, with_opened, throughput_open_connections-IsInStep,
}
use kata_load_test.Tcp.Tests.{start}

abbrev all_well : ℕ → Answers
all_well i = record {
  sock = some i;
  connect = true;
  nonblock = true;
  send_buffer = true;
  receive_buffer = true;
  bind = true;
  timestamp = true;
  no_delay = true;
  linger = true;
  busy_poll = true;
  epoll_add = true;
}

all_well-IsAnswering : (i : ℕ) → IsAnswering (all_well i)
all_well-IsAnswering i = record {
  sock = i;
  has_sock = refl;
  connect = refl;
  nonblock = refl;
  send_buffer = refl;
  receive_buffer = refl;
  bind = refl;
  timestamp = refl;
  no_delay = refl;
  linger = refl;
  epoll_add = refl;
}

abbrev one_target : AgentConfig ℤ
one_target = record (calloc_config {R = ℤ}) {
  thread_count = pos 1;
  conn_count = pos 2;
  targets = record { ip = 7; port = 8 } ∷ [];
  atype = symmetric_agent;
}

throughput_open_connections-IsInStep_example :
    (o : Opened) × (throughput_open_connections one_target true all_well ≡ ok (some o))
    × IsInStep 0 (λ k. []) (with_opened o start)
    × ((k : ℕ)
        → k < 2
        → get_elem? o.destinations k ≡ get_elem? one_target.targets (k % length one_target.targets))
throughput_open_connections-IsInStep_example =
    throughput_open_connections-IsInStep one_target all_well 2 0 start refl refl (omega arith) refl
      (omega arith) all_well-IsAnswering
