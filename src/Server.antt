-- ===== src/Server.antt =====
-- The files under src/server: what is done with a parsed request.
pub mod Pattern
pub mod Router
pub mod Pipeline
pub mod Config
pub mod Connection
pub mod Pool
pub mod Serve
pub mod AcceptLoop
