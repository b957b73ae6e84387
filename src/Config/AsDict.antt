-- ===== src/Config/AsDict.antt =====
-- models.py: `asdict` of the frozen configuration.
pub mod Members
pub mod System
pub mod Storage
pub mod Boot
pub mod Features
use arch_installer.Config.Value.{Value, dict, end, field}
use arch_installer.Config.Models.{InstallerConfig}
use arch_installer.Config.AsDict.System.{system_config_dict, packages_config_dict, gpu_config_dict}
use arch_installer.Config.AsDict.Storage.{storage_config_dict, usb_boot_config_dict}
use arch_installer.Config.AsDict.Boot.{boot_config_dict}
use arch_installer.Config.AsDict.Features.{
  snapper_config_dict, notifications_config_dict, firewall_config_dict, docker_config_dict,
  sync_config_dict, migration_config_dict, encrypted_secrets_config_dict, credentials_dict,
}

unfoldable pub installer_config_dict : InstallerConfig → Value
unfolding boot_config_dict credentials_dict docker_config_dict encrypted_secrets_config_dict
    firewall_config_dict gpu_config_dict migration_config_dict notifications_config_dict
    packages_config_dict snapper_config_dict storage_config_dict sync_config_dict system_config_dict
    usb_boot_config_dict
installer_config_dict c = dict (
    field "system" (system_config_dict c.system) (
      field "packages" (packages_config_dict c.packages) (
        field "storage" (storage_config_dict c.storage) (
          field "boot" (boot_config_dict c.boot) (
            field "gpu" (gpu_config_dict c.gpu) (
              field "snapper" (snapper_config_dict c.snapper) (
                field "firewall" (firewall_config_dict c.firewall) (
                  field "docker" (docker_config_dict c.docker) (
                    field "notifications" (notifications_config_dict c.notifications) (
                      field "sync" (sync_config_dict c.sync) (
                        field "migration" (migration_config_dict c.migration) (
                          field "usb_boot" (usb_boot_config_dict c.usb_boot) (
                            field "secrets" (encrypted_secrets_config_dict c.secrets) (
                              field "credentials" (credentials_dict c.credentials)
                                (end)))))))))))))))
