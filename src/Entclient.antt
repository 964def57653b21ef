-- ===== src/Entclient.antt =====
-- pkg/entclient: the calling side of an entity kind. Temporal's client is a parameter.
pub mod Server
pub mod Retry
pub mod Typed
pub mod Operator
pub mod Calls
pub mod Queries
pub mod Labels
pub mod Operating
