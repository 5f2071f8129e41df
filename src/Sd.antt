-- ===== src/Sd.antt =====
-- src/sd: the service discovery domain.
pub mod Pvalue
pub mod Props
pub mod Generation
pub mod Service
pub mod Filter
pub mod Sub
pub mod Conn
pub mod State
pub mod Orphans
pub mod Client
pub mod Publish
pub mod Subscribe
pub mod Server
pub mod Tests
