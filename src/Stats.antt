-- ===== src/Stats.antt =====
-- lancet/agents/stats.c and lancet/inc/lancet/stats.h: the statistics that the agent's threads
-- collect and the manager aggregates.
pub mod State
pub mod Samples
pub mod Aggregate
pub mod Sort
pub mod Ks
pub mod Interarrival
pub mod Independence
pub mod Percentiles
pub mod Tests
