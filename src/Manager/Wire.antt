-- ===== src/Manager/Wire.antt =====
-- The messages of lancet/inc/lancet/coord_proto.h and the replies of lancet/agents/manager.c. The
-- structures are packed: a message is the sequence of its fields.
use kata_load_test.Base.{ℕ, ◌+◌, ◌*◌, List, [], ◌∷◌}

-- A field with its value; `f64` is a double, of type `R`.
pub data Field (R : Type 0) : Type 0 where
  u32 u64 : ℕ → Field R
  f64 : R → Field R

module _ {R : Type 0} where
  abbrev pub width : Field R → ℕ
  width (u32 n) = 4
  width (u64 n) = 8
  width (f64 x) = 8

  abbrev pub size : List (Field R) → ℕ
  size [] = 0
  size (x ∷ xs) = width x + size xs

-- The types of messages, of reports and of replies, as they are numbered.
abbrev pub type_start_load : ℕ
type_start_load = 0

abbrev pub type_start_measure : ℕ
type_start_measure = 1

abbrev pub type_report_req : ℕ
type_report_req = 2

abbrev pub type_reply : ℕ
type_reply = 3

abbrev pub report_throughput : ℕ
report_throughput = 0

abbrev pub report_latency : ℕ
report_latency = 1

abbrev pub reply_ack_info : ℕ
reply_ack_info = 0

abbrev pub reply_stats_throughput : ℕ
reply_stats_throughput = 1

abbrev pub reply_stats_latency : ℕ
reply_stats_latency = 2

abbrev pub reply_convergence : ℕ
reply_convergence = 3

abbrev pub reply_ia_comp : ℕ
reply_ia_comp = 4

abbrev pub reply_iid : ℕ
reply_iid = 5

module _ {R : Type 0} where
  -- `struct msg1` and `struct msg2` with type REPLY.
  abbrev pub msg1 : ℕ → ℕ → List (Field R)
  msg1 message_length info = u32 type_reply ∷ u32 message_length ∷ u32 info ∷ []

  abbrev pub msg2 : ℕ → ℕ → ℕ → List (Field R)
  msg2 message_length info1 info2 = u32 type_reply ∷ u32 message_length ∷ u32 info1 ∷ u32 info2 ∷ []

-- `struct throughput_reply`
pub record ThroughputReply : Type 0 where
  pub rx_bytes : ℕ
  pub tx_bytes : ℕ
  pub req_count : ℕ
  pub duration : ℕ

abbrev pub throughput_fields : {R : Type 0} → ThroughputReply → List (Field R)
throughput_fields d = u64 d.rx_bytes ∷ u64 d.tx_bytes ∷ u64 d.req_count ∷ u64 d.duration ∷ []

-- sizeof(struct throughput_reply) and sizeof(uint32_t); sizeof of a size_t expression.
abbrev pub sizeof_throughput_reply : ℕ
sizeof_throughput_reply = 32

abbrev pub sizeof_u32 : ℕ
sizeof_u32 = 4

abbrev pub sizeof_size : ℕ
sizeof_size = 8

abbrev pub sizeof_double : ℕ
sizeof_double = 8

-- sizeof(struct msg_hdr)
abbrev pub sizeof_hdr : ℕ
sizeof_hdr = 8

-- The little-endian number in the bytes of a structure.
abbrev pub number_of : List ℕ → ℕ
number_of [] = 0
number_of (b ∷ bs) = b + 256 * number_of bs
