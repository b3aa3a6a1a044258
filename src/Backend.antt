-- ===== src/Backend.antt =====
-- pkg/backend: the interface of the storages, what it promises, and the storages.
pub mod Defs
pub mod Contract
pub mod Memory
pub mod Dynamodb
pub mod Redis
