-- ===== src/Server.antt =====
-- The server, server/: the modules below model one class each.
pub mod Session
pub mod EventLoop
pub mod Connection
pub mod Subscriber
pub mod Store
pub mod Commands
pub mod Ingest
pub mod Main
pub mod Events
pub mod Tests
