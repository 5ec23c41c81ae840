-- ===== src/Requestman.antt =====
-- service/requestman: storage under namespaces, requests, their queue and their monitor.
pub mod Containers
pub mod Handle
pub mod Monitor
pub mod Namespaces
pub mod Query
pub mod Queue
pub mod Storage
pub mod Syncutils
