-- ===== src/Executors/Harmless.antt =====
-- The executors of mirrors.py, system.py, packages.py, gpu.py, firewall.py and docker.py, and the boot
-- loader of boot.py: they overwrite no device.
pub mod Installed
pub mod Images
pub mod Staging
use arch_installer.Prelude.{String, List, [], ◌∷◌, All}
use arch_installer.Core.Exec.{Machine, Exec, Done}
use arch_installer.Core.Exec.Emits.{Emits, emits_rules}
use arch_installer.Core.Exec.Devices.{OverwritesIn, path_rules}
use arch_installer.Config.Models.{InstallerConfig}
use arch_installer.Config.Models.Enums.{Desktop}
use arch_installer.Config.Models.System.{PackagesConfig}
use arch_installer.Executors.Base.{file_exists, write_file}
use arch_installer.Executors.Mirrors
use arch_installer.Executors.System
use arch_installer.Executors.System.{enable_locale, create_user, user_groups}
use arch_installer.Executors.Packages
use arch_installer.Executors.Packages.{
  create_vconsole_config, clear_pacman_locks, install, copy_pacman_config, generate_fstab,
  enable_display_manager, enable_display_managers, enable_services,
}
use arch_installer.Executors.Gpu
use arch_installer.Executors.Firewall
use arch_installer.Executors.Firewall.{
  ensure_ufw, set_enabled_on_boot, allow_ssh, block_rule, allow_rule, configure,
}
use arch_installer.Executors.Docker
use arch_installer.Executors.Docker.{configure_daemon, grant_access}
use arch_installer.Executors.Boot.Loader
use arch_installer.Executors.Boot.Loader.{install_on_usb_boot_drive}
use arch_installer.Executors.Boot.SecureBoot.{sign_if_present}

ruleset harmless_rules = (emits_rules, path_rules, tt)

module _ (w : Machine) where
  pub mirrors-OverwritesIn :
      (config : InstallerConfig) → Emits w (OverwritesIn []) (Mirrors.execute config)
  unfolding Mirrors.execute write_file
  mirrors-OverwritesIn config = search harmless_rules depth 40

  pub system-OverwritesIn :
      (config : InstallerConfig) → Emits w (OverwritesIn []) (System.execute config)
  unfolding System.execute write_file enable_locale create_user
  system-OverwritesIn config = search harmless_rules depth 60

  managers-OverwritesIn :
      (ds : List Desktop) (ms : List String)
      → Emits w (OverwritesIn []) (enable_display_managers ds ms)
  unfolding enable_display_managers enable_display_manager
  managers-OverwritesIn [] ms = search harmless_rules
  managers-OverwritesIn (d ∷ ds) ms = search harmless_rules depth 40

  services-OverwritesIn : (p : PackagesConfig) → Emits w (OverwritesIn []) (enable_services p)
  unfolding enable_services
  services-OverwritesIn p = search (harmless_rules, managers-OverwritesIn) depth 40

  pub packages-OverwritesIn :
      (config : InstallerConfig) → Emits w (OverwritesIn []) (Packages.execute config)
  unfolding Packages.execute create_vconsole_config clear_pacman_locks install copy_pacman_config
      generate_fstab file_exists write_file
  packages-OverwritesIn config = search (harmless_rules, services-OverwritesIn) depth 60

  pub gpu-OverwritesIn : (config : InstallerConfig) → Emits w (OverwritesIn []) (Gpu.execute config)
  unfolding Gpu.execute write_file
  gpu-OverwritesIn config = search harmless_rules depth 40

  pub firewall-OverwritesIn :
      (config : InstallerConfig) → Emits w (OverwritesIn []) (Firewall.execute config)
  unfolding Firewall.execute ensure_ufw set_enabled_on_boot allow_ssh block_rule allow_rule
      configure
  firewall-OverwritesIn config = search harmless_rules depth 60

  pub docker-OverwritesIn :
      (config : InstallerConfig) → Emits w (OverwritesIn []) (Docker.execute config)
  unfolding Docker.execute configure_daemon grant_access user_groups write_file
  docker-OverwritesIn config = search harmless_rules depth 60

  pub loader-OverwritesIn :
      (config : InstallerConfig) → Emits w (OverwritesIn []) (Loader.execute config)
  unfolding Loader.execute install_on_usb_boot_drive sign_if_present write_file file_exists
  loader-OverwritesIn config = search harmless_rules depth 60

-- The executors of the configuration that set up no storage and no boot image.
abbrev pub ordinary_steps : InstallerConfig → List (Exec Done)
ordinary_steps config =
    Mirrors.execute config
    ∷ Packages.execute config
    ∷ System.execute config
    ∷ Gpu.execute config
    ∷ Loader.execute config
    ∷ Firewall.execute config
    ∷ Docker.execute config
    ∷ []

-- On every machine none of the mirrors, packages, system, graphics, boot loader, firewall and docker
-- steps runs a command on disks that overwrites one, or writes a file to a path below /dev/, whether
-- it returns or raises. What pacman and the other programs of the new system do is theirs.
pub ordinary_steps-OverwritesIn :
    (w : Machine) (config : InstallerConfig)
    → All (λ step. Emits w (OverwritesIn []) step) (ordinary_steps config)
ordinary_steps-OverwritesIn w config = (
  mirrors-OverwritesIn w config,
  (
    packages-OverwritesIn w config,
    (
      system-OverwritesIn w config,
      (
        gpu-OverwritesIn w config,
        (
          loader-OverwritesIn w config,
          (firewall-OverwritesIn w config, (docker-OverwritesIn w config, tt)),
        ),
      ),
    ),
  ),
)
