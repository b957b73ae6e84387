-- ===== src/Install/Settings.antt =====
-- install_steps/registry.py: the settings of each step, with their variables and questions.
pub mod Disks
pub mod Features
