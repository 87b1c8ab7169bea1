-- ===== src/Kv/Coordinator.antt =====
-- kv/server/include/coordinator.hpp and kv/server/src/coordinator.cpp.
pub mod State
pub mod Hints
pub mod Client
pub mod Server
pub mod Acks
pub mod Reads
pub mod Events
pub mod Tally
pub mod Recount
pub mod Repair
pub mod Introduction
pub mod Handoff
pub mod Bounds
pub mod Kept
pub mod Quorum
pub mod Wired
