-- ===== src/Server/Tests.antt =====
-- A request for three microseconds, and a clock that counts them.
use mathlib.Core.List.{flatten}
use kata_load_test.Base.{ℕ, ◌≤◌, ◌≡◌, some, arith, ok}
use kata_load_test.Base.Int.{ℤ, pos, ◌+ℤ◌}
use kata_load_test.AppProto.Response.{proto_synthetic, consume_response}
use kata_load_test.AppProto.Request.{null, create_request}
use kata_load_test.Server.{size_of_long, process_req}
use kata_load_test.Server.Laws.{IsFirst, process_req-serves}

abbrev ticks : ℕ → ℤ
ticks k = pos k

process_req-serves_example :
    (j : ℕ) × (process_req ticks
        (some (flatten (create_request proto_synthetic 3 null).0))
        (some size_of_long)
        9
      ≡ ok (some j))
    × (j ≤ 4)
    × IsFirst ticks (ticks 0 +ℤ pos 3) 1 j
    × (consume_response proto_synthetic size_of_long ≡ ok (record { bytes = 8; reqs = 1 }))
unfolding ◌+ℤ◌
process_req-serves_example =
    process_req-serves 3 null ticks 9 4 (omega arith) (omega arith) (omega arith) (omega arith)
