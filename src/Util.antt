-- ===== src/Util.antt =====
-- src/util: the containers that the service discovery code is built on.
pub mod Sequence
pub mod Plist
pub mod Pqueue
pub mod Pmap
pub mod Sbuf
mod Tests
