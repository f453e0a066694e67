-- ===== src/Kube.antt =====
-- pkg/kube: what the adapter keeps in the cluster.
pub mod Hash
pub mod Labels
pub mod Resources
pub mod Runner
pub mod Lifecycle
pub mod Deploy
