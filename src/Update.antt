-- ===== src/Update.antt =====
-- internal/controller/update_controller.go: when an update is applied, and how its outcome is recorded.
pub mod Window
pub mod Delay
pub mod Outcome
pub mod Flow
pub mod Schedule
pub mod Reconcile
