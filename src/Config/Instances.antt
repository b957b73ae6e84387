-- ===== src/Config/Instances.antt =====
-- Every value that the builder accepts is `asdict` of an instance of the configuration model.
pub mod Members
pub mod System
pub mod Storage
pub mod Boot
pub mod Features
pub mod Built
use arch_installer.Prelude.{refl}
use arch_installer.Config.Schema.{section_type}
use arch_installer.Config.Declared.{installer_config_section}
use arch_installer.Config.AsDict.{installer_config_dict}
use arch_installer.Config.Instances.Members.{Covers, ◌&◌, done-Covers, section-Covers}
use arch_installer.Config.Instances.System.{
  system_config_dict-Covers, packages_config_dict-Covers, gpu_config_dict-Covers,
}
use arch_installer.Config.Instances.Storage.{
  storage_config_dict-Covers, usb_boot_config_dict-Covers,
}
use arch_installer.Config.Instances.Boot.{boot_config_dict-Covers}
use arch_installer.Config.Instances.Features.{
  snapper_config_dict-Covers, notifications_config_dict-Covers, firewall_config_dict-Covers,
  docker_config_dict-Covers, sync_config_dict-Covers, migration_config_dict-Covers,
  encrypted_secrets_config_dict-Covers, credentials_dict-Covers,
}

pub installer_config_dict-Covers :
    Covers (section_type installer_config_section) installer_config_dict
unfolding installer_config_dict
installer_config_dict-Covers =
    section-Covers
      (system_config_dict-Covers & packages_config_dict-Covers & storage_config_dict-Covers
        & boot_config_dict-Covers & gpu_config_dict-Covers & snapper_config_dict-Covers
        & firewall_config_dict-Covers & docker_config_dict-Covers & notifications_config_dict-Covers
        & sync_config_dict-Covers & migration_config_dict-Covers & usb_boot_config_dict-Covers
        & encrypted_secrets_config_dict-Covers & credentials_dict-Covers & done-Covers)
      (λ p. record {
        system = p.first;
        packages = p.rest.first;
        storage = p.rest.rest.first;
        boot = p.rest.rest.rest.first;
        gpu = p.rest.rest.rest.rest.first;
        snapper = p.rest.rest.rest.rest.rest.first;
        firewall = p.rest.rest.rest.rest.rest.rest.first;
        docker = p.rest.rest.rest.rest.rest.rest.rest.first;
        notifications = p.rest.rest.rest.rest.rest.rest.rest.rest.first;
        sync = p.rest.rest.rest.rest.rest.rest.rest.rest.rest.first;
        migration = p.rest.rest.rest.rest.rest.rest.rest.rest.rest.rest.first;
        usb_boot = p.rest.rest.rest.rest.rest.rest.rest.rest.rest.rest.rest.first;
        secrets = p.rest.rest.rest.rest.rest.rest.rest.rest.rest.rest.rest.rest.first;
        credentials = p.rest.rest.rest.rest.rest.rest.rest.rest.rest.rest.rest.rest.rest.first;
      })
      λ p. refl
