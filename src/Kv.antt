-- ===== src/Kv.antt =====
-- The replicated key-value store (kv/).
pub mod Messages
pub mod Replica
pub mod Header
pub mod Codec
pub mod Log
pub mod Channel
pub mod Config
pub mod Coordinator
pub mod Client
mod Examples
