-- ===== src/Agent.antt =====
-- lancet/agents/args.c and lancet/agents/agent.c: the configuration of the agent, how its arguments
-- make it, and what the other parts take from it.
pub mod Config
pub mod Targets
pub mod Args
pub mod Load
pub mod Start
mod Tests
