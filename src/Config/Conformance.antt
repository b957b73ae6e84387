-- ===== src/Config/Conformance.antt =====
-- Every configuration has values of the declared types.
pub mod Members
pub mod System
pub mod Storage
pub mod Boot
pub mod Features
use arch_installer.Prelude.{◌≡◌, refl, true}
use arch_installer.Config.Schema.{section_type}
use arch_installer.Config.Export.{conforms, fields_conform, all_items, is_null}
use arch_installer.Config.Models.{InstallerConfig}
use arch_installer.Config.Declared.{installer_config_section}
use arch_installer.Config.AsDict.{installer_config_dict}
use arch_installer.Config.Conformance.Members.{both}
use arch_installer.Config.Conformance.System.{
  system_config_dict-conforms, packages_config_dict-conforms, gpu_config_dict-conforms,
}
use arch_installer.Config.Conformance.Storage.{
  storage_config_dict-conforms, usb_boot_config_dict-conforms,
}
use arch_installer.Config.Conformance.Boot.{boot_config_dict-conforms}
use arch_installer.Config.Conformance.Features.{
  snapper_config_dict-conforms, notifications_config_dict-conforms, firewall_config_dict-conforms,
  docker_config_dict-conforms, sync_config_dict-conforms, migration_config_dict-conforms,
  encrypted_secrets_config_dict-conforms, credentials_dict-conforms,
}

-- Every configuration, as a dictionary, has the declared sections with values of the declared types.
pub installer_config_dict-conforms :
    (c : InstallerConfig)
    → conforms (section_type installer_config_section) (installer_config_dict c) ≡ true
unfolding installer_config_dict conforms fields_conform
installer_config_dict-conforms c = both (system_config_dict-conforms c.system) (
    both (packages_config_dict-conforms c.packages) (
      both (storage_config_dict-conforms c.storage) (
        both (boot_config_dict-conforms c.boot) (
          both (gpu_config_dict-conforms c.gpu) (
            both (snapper_config_dict-conforms c.snapper) (
              both (firewall_config_dict-conforms c.firewall) (
                both (docker_config_dict-conforms c.docker) (
                  both (notifications_config_dict-conforms c.notifications) (
                    both (sync_config_dict-conforms c.sync) (
                      both (migration_config_dict-conforms c.migration) (
                        both (usb_boot_config_dict-conforms c.usb_boot) (
                          both (encrypted_secrets_config_dict-conforms c.secrets)
                            (both (credentials_dict-conforms c.credentials) (refl))))))))))))))
