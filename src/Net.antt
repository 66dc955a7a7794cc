-- ===== src/Net.antt =====
-- The network side of the server (Server/Server/Server): buffers, framing and sessions.
pub mod RecvBuffer
pub mod Framing
pub mod SendBuffer
pub mod Session
pub mod SendBufferQueue
