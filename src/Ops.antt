-- ===== src/Ops.antt =====
-- service/ops: what servers answer to requests, and how clients merge the answers of several servers.
pub mod Answers
pub mod Client
pub mod Clients
pub mod Merge
pub mod Server
