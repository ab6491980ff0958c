-- ===== src/Controller.antt =====
-- Package pkg/controller: which changes of the custom resources are synchronised, and how.
pub mod Update
pub mod Queue
pub mod Sync
pub mod Handlers
pub mod External
pub mod Endpoint
pub mod System
pub mod Wiring
mod Tests
