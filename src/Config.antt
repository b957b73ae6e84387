-- ===== src/Config.antt =====
-- src/arch_installer/config: the configuration model and the sources of its values.
pub mod Models
pub mod Value
pub mod ValuePrecedence
pub mod Schema
pub mod Builder
pub mod Export
pub mod Reading
pub mod Environment
pub mod Declared
pub mod AsDict
pub mod Conformance
pub mod Exported
pub mod File
pub mod SecretsFile
pub mod Instances
