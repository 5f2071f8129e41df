-- ===== src/Proto.antt =====
-- The protocol: src/proto/.
pub mod Json
pub mod Names
pub mod Types
pub mod Encoding
pub mod Ta
pub mod World
pub mod Notify
pub mod Lists
pub mod Conn
pub mod Server
pub mod Events
mod Tests
