-- ===== src/Install.antt =====
-- installer.py, expected_state.py and install_steps: the steps of an installation and their run.
pub mod Questions
pub mod Wiring
pub mod Conditions
pub mod Choices
pub mod Steps
pub mod Settings
pub mod Registry
pub mod ExpectedState
pub mod Installer
pub mod Enabled
pub mod Safety
pub mod Failure
