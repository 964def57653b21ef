-- ===== src/Entity.antt =====
-- pkg/entity: the vocabulary that the defining and the calling side share.
pub mod Id
pub mod State
pub mod Command
