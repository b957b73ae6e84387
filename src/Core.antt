-- ===== src/Core.antt =====
-- src/arch_installer/core: the command runner and the commands that the program runs with it.
pub mod Commands
pub mod Exec
pub mod Secrets
