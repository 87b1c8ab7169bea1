-- ===== src/Bank.antt =====
-- The distributed bank with snapshots (bank/).
pub mod Messages
pub mod Header
pub mod Snapshot
pub mod Channel
pub mod Withdrawal
pub mod Peers
pub mod Branch
pub mod Network
pub mod Global
pub mod Controller
mod Examples
