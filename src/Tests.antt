-- ===== src/Tests.antt =====
-- Concrete runs of the modelled code, and the theorems at concrete inputs.
mod Example
mod Path
mod Transient
mod Retry
mod Normalize
mod Paginate
mod Process
mod Stream
mod Secrets
mod Http
mod Stdio
mod Init
mod Selection
mod Deploy
mod Kube
mod Lifecycle
