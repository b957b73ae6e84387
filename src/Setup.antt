-- ===== src/Setup.antt =====
-- setup/: the interactive setup and the port of its front-ends.
pub mod Ui
pub mod Talk
pub mod Frontend
pub mod Session
pub mod Questions
pub mod Run
pub mod Asking
pub mod Machine
