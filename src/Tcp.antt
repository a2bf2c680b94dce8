-- ===== src/Tcp.antt =====
-- lancet/agents/tp_tcp.c and lancet/inc/lancet/tp_proto.h: the agents' main loops over TCP.
pub mod Connection
pub mod Receive
pub mod Stream
pub mod Reassembly
pub mod Balance
pub mod Reads
pub mod Thread
pub mod Throughput
pub mod Symmetric
pub mod Nic
pub mod Latency
pub mod Opening
mod Tests
