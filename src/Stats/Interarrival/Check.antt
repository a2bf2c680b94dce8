-- ===== src/Stats/Interarrival/Check.antt =====
-- `check_ia` from the threads' times to its answer.
use kata_load_test.Base.{ℕ, ◌+◌, List, [], ◌∷◌, ◌++◌, slice}
use kata_load_test.Timespec.{Timespec}
use kata_load_test.Rand.Real.{Real}
use kata_load_test.Stats.State.{AllStats}
use kata_load_test.Stats.Sort.{Sort}
use kata_load_test.Stats.Interarrival.{to_copy}

-- How many times the threads hold, 2048 each at most, and these times, thread after thread.
abbrev pub copies : AllStats → ℕ
copies [] = 0
copies (t ∷ all) = to_copy t.tx_s + copies all

abbrev pub sent_times : AllStats → List Timespec
sent_times [] = []
sent_times (t ∷ all) = slice t.tx_s.samples 0 (to_copy t.tx_s) ++ sent_times all
