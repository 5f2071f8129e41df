-- ===== src/Proto/Events.antt =====
-- The events of src/proto/server.c and src/proto/proto_conn.c, as steps of the whole server, and what
-- holds in every state that they lead to.
pub mod Frame
pub mod Handlers
pub mod Invariant
pub mod Hello
pub mod Endings
pub mod Reachable
