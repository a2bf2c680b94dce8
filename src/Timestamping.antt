-- ===== src/Timestamping.antt =====
-- lancet/agents/timestamping.c and lancet/inc/lancet/timestamping.h: the times at which a
-- connection's requests were sent, kept until their responses arrive.
pub mod Setup
pub mod Pending
pub mod Queue
pub mod Runs
pub mod Extract
pub mod Nic
pub mod Acks
mod Tests
