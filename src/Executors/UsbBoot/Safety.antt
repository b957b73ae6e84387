-- ===== src/Executors/UsbBoot/Safety.antt =====
-- executors/usb_boot.py: what the preparation of the USB boot drive overwrites, and when it keeps a drive.
use arch_installer.Prelude.{
  ◌≡◌, refl, not, ◌&&◌, arith, inl, inr, String, Bool, true, false, List, [], ◌∷◌, ℤ, if◌then◌else◌,
}
use arch_installer.Core.Commands.{probe}
use arch_installer.Core.Commands.Probes.{Probe}
use arch_installer.Core.Exec.{Machine, Event, plain}
use arch_installer.Core.Exec.Emits.{
  Emits, emits_rules, Emits-bind, Emits-if, Emits-bind-Yields, Yields, Yields-bind, Yields-succeeds,
  Yields-pure, Succeeds,
}
use arch_installer.Core.Exec.Devices.{path_rules, OverwritesIn, IsReadOnly}
use arch_installer.Config.Models.Enums.{is_skip}
use arch_installer.Config.Models.Storage.{
  usb_efi_partition, usb_luks_header_partition, usb_recovery_partition,
}
use arch_installer.Config.Models.{InstallerConfig}
use arch_installer.Executors.UsbBoot.Inspector.{wait_for_partition, holds_luks_header}
use arch_installer.Executors.UsbBoot.Iso.{extract_live_system}
use arch_installer.Executors.UsbBoot.Drive
use arch_installer.Executors.UsbBoot.Drive.{
  is_resuming, keeps_existing_drive, require_capacity, release_drive, partition_drive,
  store_recovery_system, recovery_size_mb, prepare_drive, check_and_prepare, require_stable_path,
  unless,
}
use arch_installer.Executors.UsbBoot.Reads.{
  recovery_size_mb-Emits, keeps_existing_drive-Emits, require_capacity-Emits, execute-Emits,
  partition_wait_loop-Emits,
}

ruleset drive_rules = (emits_rules, path_rules, tt, inl, inr)

-- the USB boot drive and its partitions
abbrev pub drive_devices : InstallerConfig → List String
drive_devices config =
    config.usb_boot.device
    ∷ usb_luks_header_partition config.usb_boot
    ∷ usb_efi_partition config.usb_boot
    ∷ usb_recovery_partition config.usb_boot
    ∷ []

module _ (w : Machine) (config : InstallerConfig) where
  abbrev OnDrive : Event → Type 0
  OnDrive = OverwritesIn (drive_devices config)

  wait-OnDrive : (p : String) → Emits w OnDrive (wait_for_partition config.usb_boot.device p)
  unfolding wait_for_partition
  wait-OnDrive p = partition_wait_loop-Emits w OnDrive (λ c. tt) (λ n. tt) (λ d. tt) _ _ _

  release_drive-OnDrive : Emits w OnDrive (release_drive config)
  unfolding release_drive
  release_drive-OnDrive = search drive_rules depth 40

  partition_drive-OnDrive : (n : ℤ) → Emits w OnDrive (partition_drive config n)
  unfolding partition_drive
  partition_drive-OnDrive n = search (drive_rules, wait-OnDrive) depth 60

  store_recovery_system-OnDrive : Emits w OnDrive (store_recovery_system config)
  unfolding store_recovery_system extract_live_system
  store_recovery_system-OnDrive = search drive_rules depth 60

  prepare_drive-OnDrive : (n : ℤ) → Emits w OnDrive (prepare_drive config n)
  unfolding prepare_drive
  prepare_drive-OnDrive n =
      search
        (drive_rules, release_drive-OnDrive, partition_drive-OnDrive, store_recovery_system-OnDrive)
        depth 40

  check_and_prepare-OnDrive : Emits w OnDrive (check_and_prepare config)
  unfolding check_and_prepare
  check_and_prepare-OnDrive =
      Emits-bind (recovery_size_mb config) _ (recovery_size_mb-Emits w OnDrive (λ c. tt) config)
        λ n.
          Emits-bind (require_capacity config n) _
            (require_capacity-Emits w OnDrive (λ c. tt) config n) λ _. prepare_drive-OnDrive n

-- On every machine the preparation of the USB boot drive overwrites only the drive and its first
-- three partitions.
pub execute-drive_devices :
    (w : Machine) (config : InstallerConfig)
    → Emits w (OverwritesIn (drive_devices config)) (Drive.execute config)
unfolding unless
execute-drive_devices w config =
    execute-Emits w (OverwritesIn (drive_devices config)) (λ c. tt) config
      (Emits-bind (keeps_existing_drive config) _
        (keeps_existing_drive-Emits w (OverwritesIn (drive_devices config)) (λ c. tt) config)
        λ kept. Emits-if kept _ _ (search emits_rules) (check_and_prepare-OnDrive w config))

resumes :
    (mounted a b : Bool) → a ≡ true → b ≡ false → (if mounted then true else a && not b) ≡ true
resumes mounted a b p q = ground arith

keeps_existing_drive-Yields :
    (w : Machine) (config : InstallerConfig)
    → Succeeds w (plain (probe (Probe.is_luks (usb_luks_header_partition config.usb_boot))))
    → is_skip config.storage.wipe_method ≡ true
    → config.migration.enabled ≡ false
    → Yields w (λ kept. kept ≡ true) (keeps_existing_drive config)
unfolding keeps_existing_drive is_resuming holds_luks_header
keeps_existing_drive-Yields w config header skips migrates =
    Yields-bind (λ resuming. resuming ≡ true) _ _
      (Yields-bind (λ _. Unit {0}) _ _ (record { at = λ tr a e. tt })
        (λ mounted _. Yields-pure _ (resumes mounted _ _ skips migrates)))
      λ resuming e. rw e (Yields-succeeds _ header)

-- On a machine where the header partition holds a LUKS header, the preparation of the drive only
-- reads, where the wipe method is skip and no data is migrated.
pub execute-keeps_header :
    (w : Machine) (config : InstallerConfig)
    → Succeeds w (plain (probe (Probe.is_luks (usb_luks_header_partition config.usb_boot))))
    → is_skip config.storage.wipe_method ≡ true
    → config.migration.enabled ≡ false
    → Emits w IsReadOnly (Drive.execute config)
unfolding unless
execute-keeps_header w config header skips migrates =
    execute-Emits w IsReadOnly (λ c. refl) config
      (Emits-bind-Yields (λ kept. kept ≡ true) (keeps_existing_drive config) _
        (keeps_existing_drive-Emits w IsReadOnly (λ c. refl) config)
        (keeps_existing_drive-Yields w config header skips migrates)
        λ kept e. rw e (search emits_rules))
