-- ===== src/Proto.antt =====
-- The protocol library, proto/: the modules below model one header each.
pub mod Messages
pub mod Crc
pub mod Ring
pub mod StaticVector
pub mod Cobs
pub mod Encoder
pub mod Parser
pub mod Tests
