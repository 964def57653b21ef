-- ===== src/Entdefine/Loop.antt =====
-- pkg/entdefine/loop.go, `workflowFn`: the main loop and the message handlers around it.
mod Run
mod Main
mod Setup
mod Messages
unfoldable pub use Run.*
unfoldable pub use Main.*
unfoldable pub use Setup.*
unfoldable pub use Messages.*
