-- ===== src/Http.antt =====
-- The web server (http/).
pub mod Request
pub mod Response
pub mod Socket
pub mod Log
pub mod Hosts
pub mod File
pub mod Descriptor
pub mod Mime
pub mod Server
mod Examples
