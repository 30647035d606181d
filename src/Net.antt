-- ===== src/Net.antt =====
-- The files under src/net: descriptors, the calls on them, and the listening socket.
pub mod Errno
pub mod Ownership
pub mod Socket
pub mod Listener
