-- ===== src/Reconciler.antt =====
-- examples/reconciler/main.go: a typed resource of a user, managed with k8slib.
pub mod Deployment
pub mod BlueGreen
pub mod Kind
