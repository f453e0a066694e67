-- ===== src/Adapter.antt =====
-- pkg/adapter
pub mod Path
pub mod Transient
pub mod Inputs
pub mod Retry
pub mod Normalize
pub mod Paginate
pub mod Process
pub mod Stream
pub mod Secrets
pub mod Naming
pub mod Launch
pub mod Init
pub mod Selection
pub mod Debug
