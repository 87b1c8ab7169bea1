-- ===== src/Chord.antt =====
-- The file store on a ring of nodes (chord/).
pub mod Hash
pub mod Node
pub mod Files
mod Examples
