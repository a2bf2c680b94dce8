-- ===== src/AppProto.antt =====
-- lancet/agents/app_proto.c and lancet/inc/lancet/app_proto.h: the application protocols, by which
-- an agent builds requests and counts responses.
pub mod Decimal
pub mod Response
pub mod Request
pub mod Init
pub mod Descriptions
mod Tests
