-- ===== src/Executors/Harmless/Installed.antt =====
-- The snapshot steps, the USB boot safeguards, the restoration of migrated data and the recovery
-- system: they overwrite no device.
use arch_installer.Prelude.{refl, String, ◌<>◌, List, [], ◌∷◌}
use arch_installer.Core.Commands.Files.{device_paths}
use arch_installer.Core.Exec.{Machine, for_each}
use arch_installer.Core.Exec.Emits.{Emits, Emits-each, emits_rules}
use arch_installer.Core.Exec.Devices.{DevicesIn, closed_path, OverwritesIn, path_rules}
use arch_installer.Config.Models.{InstallerConfig}
use arch_installer.Config.Models.Features.{MigrationConfig}
use arch_installer.Executors.Base.{
  file_exists, directory_exists, is_mountpoint, write_file, partition_uuid,
}
use arch_installer.Executors.Snapper
use arch_installer.Executors.Snapper.{
  remove_nested, prepare_snapshots_subvolume, configure_volume, ensure_snapper,
}
use arch_installer.Executors.Snapper.Boot
use arch_installer.Executors.Snapper.Boot.{first_kernel}
use arch_installer.Executors.Snapper.Notifications
use arch_installer.Executors.UsbBoot.Safeguards
use arch_installer.Executors.UsbBoot.Safeguards.{
  mount_efi_on_demand, install_update_guard, install_snapshot_catch_up,
}
use arch_installer.Executors.Migration.Restore
use arch_installer.Executors.Migration.Restore.{
  staged_destinations, restore_directory, report_restored_data, restore_staged,
}

ruleset harmless_rules = (emits_rules, path_rules, tt)

module _ (w : Machine) where
  configure_volume-OverwritesIn :
      (config : InstallerConfig) (v : _) → Emits w (OverwritesIn []) (configure_volume config v)
  unfolding configure_volume prepare_snapshots_subvolume remove_nested write_file file_exists
      directory_exists is_mountpoint
  configure_volume-OverwritesIn config v = search harmless_rules depth 60

  pub snapper-OverwritesIn :
      (config : InstallerConfig) → Emits w (OverwritesIn []) (Snapper.execute config)
  unfolding Snapper.execute ensure_snapper write_file
  snapper-OverwritesIn config = search (harmless_rules, configure_volume-OverwritesIn) depth 60

  first_kernel-OverwritesIn : (ks : List String) → Emits w (OverwritesIn []) (first_kernel ks)
  unfolding first_kernel
  first_kernel-OverwritesIn [] = search harmless_rules
  first_kernel-OverwritesIn (k ∷ ks) = search harmless_rules

  pub snapshot_boot-OverwritesIn :
      (config : InstallerConfig) → Emits w (OverwritesIn []) (Boot.execute config)
  unfolding Boot.execute write_file
  snapshot_boot-OverwritesIn config = search (harmless_rules, first_kernel-OverwritesIn) depth 60

  pub notifications-OverwritesIn :
      (config : InstallerConfig) → Emits w (OverwritesIn []) (Notifications.execute config)
  unfolding Notifications.execute write_file
  notifications-OverwritesIn config = search harmless_rules depth 60

  pub safeguards-OverwritesIn :
      (config : InstallerConfig) → Emits w (OverwritesIn []) (Safeguards.execute config)
  unfolding Safeguards.execute mount_efi_on_demand install_update_guard install_snapshot_catch_up
      partition_uuid write_file
  safeguards-OverwritesIn config = search harmless_rules depth 60

  report-OverwritesIn : (m : MigrationConfig) → Emits w (OverwritesIn []) (report_restored_data m)
  unfolding report_restored_data directory_exists
  report-OverwritesIn m = search harmless_rules depth 60

  restore_directory-OverwritesIn :
      (staged destination : String)
      → DevicesIn [] (device_paths ((destination <> "/") ∷ []))
      → Emits w (OverwritesIn []) (restore_directory (staged, destination))
  unfolding restore_directory directory_exists
  restore_directory-OverwritesIn staged destination h = search harmless_rules depth 60

  destinations-OverwritesIn :
      Emits w (OverwritesIn []) (for_each staged_destinations restore_directory)
  destinations-OverwritesIn = Emits-each staged_destinations restore_directory (
    restore_directory-OverwritesIn _ _ (closed_path [] "/mnt/home/" refl),
    (
      restore_directory-OverwritesIn _ _ (closed_path [] "/mnt/var/lib/sbctl/" refl),
      (restore_directory-OverwritesIn _ _ (closed_path [] "/mnt/" refl), tt),
    ),
  )

  pub restore-OverwritesIn :
      (config : InstallerConfig) → Emits w (OverwritesIn []) (Restore.execute config)
  unfolding Restore.execute restore_staged directory_exists
  restore-OverwritesIn config =
      search (harmless_rules, report-OverwritesIn, destinations-OverwritesIn) depth 60
