-- ===== src/Wire.antt =====
-- The packets as bytes: the packed structs of ProtocolSturct.h and TestProtocol.h, the functions of
-- PacketSerializer.cpp that fill them, and the test client that takes them apart again.
pub mod Bytes
pub mod Layout
pub mod Serializer
pub mod Reading
pub mod Stress
pub mod Handlers
mod Chat
mod Tests
