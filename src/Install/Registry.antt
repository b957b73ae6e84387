-- ===== src/Install/Registry.antt =====
-- install_steps/registry.py: every step with its settings, condition and executor. `repr` stands for
-- Python's, of a text.
use arch_installer.Prelude.{String, ◌==◌, Option, none, some, List, [], ◌∷◌, ◌++◌, if◌then◌else◌}
use arch_installer.Executors.Migration.Staging
use arch_installer.Executors.UsbBoot.Drive
use arch_installer.Executors.Storage
use arch_installer.Executors.Mirrors
use arch_installer.Executors.Packages
use arch_installer.Executors.Migration.Restore
use arch_installer.Executors.System
use arch_installer.Executors.Docker
use arch_installer.Executors.Gpu
use arch_installer.Executors.Boot.Images
use arch_installer.Executors.Boot.Loader
use arch_installer.Executors.Recovery
use arch_installer.Executors.Snapper
use arch_installer.Executors.Snapper.Boot
use arch_installer.Executors.Snapper.Notifications
use arch_installer.Executors.Firewall
use arch_installer.Executors.UsbBoot.Safeguards
use arch_installer.Install.Steps.{InstallStep, run_order}
use arch_installer.Install.Conditions.{
  mirrors_declared, uses_proprietary_nvidia_driver, recovery_system_wanted,
  snapshot_notifications_wanted,
}
use arch_installer.Install.Wiring.{StepSetting, StepWiring, always, when}
use arch_installer.Install.Settings.Disks.{
  migration_staging_settings, usb_boot_drive_settings, storage_settings,
}
use arch_installer.Install.Settings.Features.{
  packages_settings, system_settings, docker_settings, bootable_snapshots_settings,
  snapshot_notifications_settings, firewall_settings, usb_backup_settings,
}

-- `INSTALL_STEPS[step].settings`
unfoldable pub step_settings : InstallStep → List StepSetting
step_settings InstallStep.migration_staging = migration_staging_settings
step_settings InstallStep.usb_boot_drive = usb_boot_drive_settings
step_settings InstallStep.storage = storage_settings
step_settings InstallStep.pacman_mirrors = []
step_settings InstallStep.packages = packages_settings
step_settings InstallStep.migration_restore = []
step_settings InstallStep.system = system_settings
step_settings InstallStep.docker = docker_settings
step_settings InstallStep.gpu_driver = []
step_settings InstallStep.kernel_images = []
step_settings InstallStep.bootloader = []
step_settings InstallStep.recovery_system = []
step_settings InstallStep.snapper = []
step_settings InstallStep.bootable_snapshots = bootable_snapshots_settings
step_settings InstallStep.snapshot_notifications = snapshot_notifications_settings
step_settings InstallStep.firewall = firewall_settings
step_settings InstallStep.usb_boot_safeguards = []

-- `INSTALL_STEPS[step]`
unfoldable pub wiring : (String → String) → InstallStep → StepWiring
unfolding step_settings
wiring repr InstallStep.migration_staging = record {
  config_sections = "migration" ∷ [];
  settings = step_settings InstallStep.migration_staging;
  enabled = when "migration.enabled";
  executor = Staging.execute;
}
wiring repr InstallStep.usb_boot_drive = record {
  config_sections = "usb_boot" ∷ [];
  settings = step_settings InstallStep.usb_boot_drive;
  enabled = when "usb_boot.enabled";
  executor = Drive.execute;
}
wiring repr InstallStep.storage = record {
  config_sections = "storage" ∷ [];
  settings = step_settings InstallStep.storage;
  enabled = always;
  executor = Storage.execute;
}
wiring repr InstallStep.pacman_mirrors = record {
  config_sections = "system.mirrors" ∷ [];
  settings = step_settings InstallStep.pacman_mirrors;
  enabled = mirrors_declared;
  executor = Mirrors.execute;
}
wiring repr InstallStep.packages = record {
  config_sections = "packages" ∷ "gpu" ∷ [];
  settings = step_settings InstallStep.packages;
  enabled = always;
  executor = Packages.execute;
}
wiring repr InstallStep.migration_restore = record {
  config_sections = [];
  settings = step_settings InstallStep.migration_restore;
  enabled = when "migration.enabled";
  executor = Restore.execute;
}
wiring repr InstallStep.system = record {
  config_sections = "system" ∷ [];
  settings = step_settings InstallStep.system;
  enabled = always;
  executor = System.execute;
}
wiring repr InstallStep.docker = record {
  config_sections = "docker" ∷ [];
  settings = step_settings InstallStep.docker;
  enabled = when "docker.enabled";
  executor = Docker.execute;
}
wiring repr InstallStep.gpu_driver = record {
  config_sections = [];
  settings = step_settings InstallStep.gpu_driver;
  enabled = uses_proprietary_nvidia_driver;
  executor = Gpu.execute;
}
wiring repr InstallStep.kernel_images = record {
  config_sections = "boot" ∷ [];
  settings = step_settings InstallStep.kernel_images;
  enabled = always;
  executor = Images.execute repr;
}
wiring repr InstallStep.bootloader = record {
  config_sections = "boot.loader" ∷ [];
  settings = step_settings InstallStep.bootloader;
  enabled = always;
  executor = Loader.execute;
}
wiring repr InstallStep.recovery_system = record {
  config_sections = [];
  settings = step_settings InstallStep.recovery_system;
  enabled = recovery_system_wanted;
  executor = Recovery.execute;
}
wiring repr InstallStep.snapper = record {
  config_sections = "snapper" ∷ [];
  settings = step_settings InstallStep.snapper;
  enabled = when "snapper.enabled";
  executor = Snapper.execute;
}
wiring repr InstallStep.bootable_snapshots = record {
  config_sections = [];
  settings = step_settings InstallStep.bootable_snapshots;
  enabled = when "boot.enable_snapshot_boot";
  executor = Boot.execute;
}
wiring repr InstallStep.snapshot_notifications = record {
  config_sections = "notifications" ∷ [];
  settings = step_settings InstallStep.snapshot_notifications;
  enabled = snapshot_notifications_wanted;
  executor = Notifications.execute;
}
wiring repr InstallStep.firewall = record {
  config_sections = "firewall" ∷ [];
  settings = step_settings InstallStep.firewall;
  enabled = when "firewall.enabled";
  executor = Firewall.execute;
}
wiring repr InstallStep.usb_boot_safeguards = record {
  config_sections = [];
  settings = step_settings InstallStep.usb_boot_safeguards;
  enabled = when "usb_boot.enabled";
  executor = Safeguards.execute;
}

settings_of : List InstallStep → List StepSetting
unfolding step_settings
settings_of [] = []
settings_of (step ∷ steps) = step_settings step ++ settings_of steps

unfoldable pub all_settings : List StepSetting
unfolding settings_of
all_settings = settings_of run_order ++ usb_backup_settings

abbrev pub pair_of : Option String → String → List (String × String)
pair_of none path = []
pair_of (some variable) path = (variable, path) ∷ []

paths_of : List StepSetting → List (String × String)
paths_of [] = []
paths_of (setting ∷ settings) =
    pair_of setting.environment_variable setting.path ++ paths_of settings

-- the pairs in order; no variable stands twice
unfoldable pub environment_variable_paths : List (String × String)
unfolding paths_of all_settings
environment_variable_paths = paths_of all_settings

first_variable : String → List StepSetting → Option String
first_variable setting_path [] = none
first_variable setting_path (setting ∷ settings) =
    if setting.path == setting_path
    then setting.environment_variable
    else first_variable setting_path settings

unfoldable pub variable_for_setting : String → Option String
unfolding first_variable all_settings
variable_for_setting setting_path = first_variable setting_path all_settings
