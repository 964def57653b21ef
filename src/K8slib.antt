-- ===== src/K8slib.antt =====
-- examples/reconciler/k8slib: Kubernetes objects as entities.
pub mod Ref
pub mod Config
pub mod Handlers
pub mod Kind
pub mod Fake
pub mod Ops
pub mod Cluster
pub mod Digest
