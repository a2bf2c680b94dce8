-- ===== src/Manager/Reading.antt =====
-- The reading of the coordinator's messages, in the bytes that it sends.
use kata_load_test.Base.{ℕ, ◌/◌, ◌%◌, ◌^◌, ◌<◌, ◌≡◌, refl, List, [], ◌∷◌, ◌++◌, arith}
use kata_load_test.Rand.Real.{Real}
use kata_load_test.Stats.Sort.{Sort}
use kata_load_test.Manager.Wire.{number_of, type_start_load, type_start_measure, type_report_req}
use kata_load_test.Manager.State.{Manager, Outside, Read, received}
use kata_load_test.Manager.{
  Message, start_load, start_measure, report_req, read_payload, read_message, manager_step,
  manager_round,
}

-- A uint32_t in memory.
abbrev pub bytes_of : ℕ → List ℕ
bytes_of n = n % 256 ∷ n / 256 % 256 ∷ n / 65536 % 256 ∷ n / 16777216 % 256 ∷ []

number_of-bytes_of : (n : ℕ) → n < 2 ^ 32 → number_of (bytes_of n) ≡ n
number_of-bytes_of n h = omega arith

-- A message as the coordinator sends it; a double as its eight bytes.
pub data Sent : Type 0 where
  send_load : ℕ → Sent
  send_measure : ℕ → (b0 b1 b2 b3 b4 b5 b6 b7 : ℕ) → Sent
  send_report : ℕ → Sent

abbrev pub double_bytes : (b0 b1 b2 b3 b4 b5 b6 b7 : ℕ) → List ℕ
double_bytes b0 b1 b2 b3 b4 b5 b6 b7 = b0 ∷ b1 ∷ b2 ∷ b3 ∷ b4 ∷ b5 ∷ b6 ∷ b7 ∷ []

abbrev pub payload_of : Sent → ℕ
payload_of (send_load n) = n
payload_of (send_measure n b0 b1 b2 b3 b4 b5 b6 b7) = n
payload_of (send_report n) = n

abbrev pub header_of : Sent → ℕ → List ℕ
header_of (send_load n) len = bytes_of type_start_load ++ bytes_of len
header_of (send_measure n b0 b1 b2 b3 b4 b5 b6 b7) len = bytes_of type_start_measure ++ bytes_of len
header_of (send_report n) len = bytes_of type_report_req ++ bytes_of len

abbrev pub sampling_of : Sent → Read → Read
sampling_of (send_measure n b0 b1 b2 b3 b4 b5 b6 b7) other =
    received (double_bytes b0 b1 b2 b3 b4 b5 b6 b7)
sampling_of (send_load n) other = other
sampling_of (send_report n) other = other

abbrev pub meaning : {R : Type 0} → (List ℕ → R) → Sent → Message R
meaning double_of (send_load n) = start_load n
meaning double_of (send_measure n b0 b1 b2 b3 b4 b5 b6 b7) =
    start_measure n (double_of (double_bytes b0 b1 b2 b3 b4 b5 b6 b7))
meaning double_of (send_report n) = report_req n

-- The reads of a round in which the message arrives whole, with any length in its header.
abbrev pub arriving : {R : Type 0} → Sent → ℕ → Outside R → Outside R
arriving m len o = record o {
  header = received (header_of m len);
  payload = received (bytes_of (payload_of m));
  sampling = sampling_of m o.sampling;
}

module _ (F : Real) (Q : Sort) where
  open F use {R}

  -- A message START_LOAD, START_MEASURE or REPORT_REQ with a payload below 2 ^ 32, in the bytes that
  -- the coordinator sends, read whole: the round handles that message with that payload, whatever
  -- the length in its header.
  pub manager_round-reads :
      (double_of : List ℕ → R) (o : Outside R) (m : Sent) (len : ℕ) (s : Manager R)
      → payload_of m < 2 ^ 32
      → manager_round F Q double_of (arriving m len o) s
        ≡ manager_step F Q (arriving m len o) (meaning double_of m) s
  unfolding manager_round read_message read_payload
  manager_round-reads double_of o (send_load n) len s h = rw (number_of-bytes_of n h) refl
  manager_round-reads double_of o (send_measure n b0 b1 b2 b3 b4 b5 b6 b7) len s h =
      rw (number_of-bytes_of n h) refl
  manager_round-reads double_of o (send_report n) len s h = rw (number_of-bytes_of n h) refl
