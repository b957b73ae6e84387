-- ===== src/Config/Declared.antt =====
-- models.py as the builder sees it: the fields of every section with their types, in declaration order.
pub mod Members
pub mod System
pub mod Storage
pub mod Boot
pub mod Features
use arch_installer.Config.Schema.{section_type, Section, done, declare}
use arch_installer.Config.Declared.System.{
  system_config_section, packages_config_section, gpu_config_section,
}
use arch_installer.Config.Declared.Storage.{storage_config_section, usb_boot_config_section}
use arch_installer.Config.Declared.Boot.{boot_config_section}
use arch_installer.Config.Declared.Features.{
  snapper_config_section, notifications_config_section, firewall_config_section,
  docker_config_section, sync_config_section, migration_config_section,
  encrypted_secrets_config_section, credentials_section,
}

abbrev pub installer_config_section : Section
installer_config_section = declare "system" (section_type system_config_section) (
    declare "packages" (section_type packages_config_section) (
      declare "storage" (section_type storage_config_section) (
        declare "boot" (section_type boot_config_section) (
          declare "gpu" (section_type gpu_config_section) (
            declare "snapper" (section_type snapper_config_section) (
              declare "firewall" (section_type firewall_config_section) (
                declare "docker" (section_type docker_config_section) (
                  declare "notifications" (section_type notifications_config_section) (
                    declare "sync" (section_type sync_config_section) (
                      declare "migration" (section_type migration_config_section) (
                        declare "usb_boot" (section_type usb_boot_config_section) (
                          declare "secrets" (section_type encrypted_secrets_config_section) (
                            declare "credentials" (section_type credentials_section)
                              (done))))))))))))))
