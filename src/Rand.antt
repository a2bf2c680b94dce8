-- ===== src/Rand.antt =====
-- lancet/agents/rand_gen.c and lancet/inc/lancet/rand_gen.h: the random generators, made from a
-- description such as `exp:4` and used for interarrival times and service times.
pub mod Cpp
pub mod Real
pub mod Libc
pub mod Strtok
pub mod Gen
pub mod Init
pub mod Print
pub mod Again
pub mod Laws
pub mod Tests
