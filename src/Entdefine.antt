-- ===== src/Entdefine.antt =====
-- pkg/entdefine: the defining side of an entity kind.
pub mod Context
pub mod Typed
pub mod Definition
pub mod Attributes
pub mod Loop
pub mod Frame
pub mod Effects
pub mod Induction
pub mod Dedup
pub mod Queue
pub mod Lifecycle
pub mod Rollover
pub mod Carried
pub mod Serving
pub mod Draining
pub mod Mirror
pub mod Marked
pub mod Emptied
pub mod Rejected
pub mod Resent
pub mod Saga
pub mod Serial
