-- ===== src/Executors/UsbBoot/Reads.antt =====
-- executors/usb_boot.py: the checks of the drives, and the wait for a partition.
use arch_installer.Prelude.{◌==◌, String, Option, none, some, ℕ, zero, suc, ℤ}
use arch_installer.Core.Commands.{probe, disk}
use arch_installer.Core.Commands.Probes.{Probe}
use arch_installer.Core.Commands.Disks
use arch_installer.Core.Exec.{Machine, Event, ran, slept, plain, ◌>>=◌, sleep, do_attempt}
use arch_installer.Core.Exec.Emits.{Emits, emits_rules, Emits-bind, Emits-if}
use arch_installer.Config.Models.{InstallerConfig}
use arch_installer.Executors.Base.{path_exists, is_mountpoint, stable_disk_path}
use arch_installer.Executors.UsbBoot.Inspector.{
  require_disk, parsed_or_raise, int_of, size_bytes, partition_wait_loop, holds_luks_header,
}
use arch_installer.Executors.UsbBoot.Iso.{read_text, read_number, read_size, image_size_bytes}
use arch_installer.Executors.UsbBoot.Drive
use arch_installer.Executors.UsbBoot.Drive.{
  is_resuming, keeps_existing_drive, require_capacity, release_drive, partition_drive,
  store_recovery_system, recovery_size_mb, prepare_drive, check_and_prepare, require_stable_path,
  unless,
}

-- Code that only reads, with any condition on the events that reads meet.
module _ (w : Machine) (P : Event → Type 0) (reads : (c : Probe) → P (ran (plain (probe c)))) where
  pub require_disk-Emits : (device : String) → Emits w P (require_disk device)
  unfolding require_disk
  require_disk-Emits device = search (emits_rules, reads) depth 30

  parsed_or_raise-Emits : (o : Option ℤ) → Emits w P (parsed_or_raise o)
  unfolding parsed_or_raise
  parsed_or_raise-Emits none = search emits_rules
  parsed_or_raise-Emits (some n) = search emits_rules

  int_of-Emits : (shown : String) → Emits w P (int_of shown)
  unfolding int_of
  int_of-Emits shown = parsed_or_raise-Emits _

  pub size_bytes-Emits : (device : String) → Emits w P (size_bytes device)
  unfolding size_bytes
  size_bytes-Emits device = search (emits_rules, reads, int_of-Emits) depth 30

  read_text-Emits : (s : String) (o n : ℕ) (f : String) → Emits w P (read_text s o n f)
  unfolding read_text
  read_text-Emits s o n f = search (emits_rules, reads) depth 30

  read_number-Emits : (s : String) (o n : ℕ) → Emits w P (read_number s o n)
  unfolding read_number
  read_number-Emits s o n = search (emits_rules, read_text-Emits, int_of-Emits) depth 30

  image_size_bytes-Emits : (s : String) → Emits w P (image_size_bytes s)
  unfolding image_size_bytes read_size
  image_size_bytes-Emits s =
      search (emits_rules, reads, read_text-Emits, read_number-Emits) depth 40

  pub recovery_size_mb-Emits : (config : InstallerConfig) → Emits w P (recovery_size_mb config)
  unfolding recovery_size_mb
  recovery_size_mb-Emits config = search (emits_rules, image_size_bytes-Emits) depth 30

  pub keeps_existing_drive-Emits :
      (config : InstallerConfig) → Emits w P (keeps_existing_drive config)
  unfolding keeps_existing_drive is_resuming is_mountpoint holds_luks_header
  keeps_existing_drive-Emits config = search (emits_rules, reads) depth 30

  require_stable_path-Emits : (d : String) → Emits w P (require_stable_path d)
  unfolding require_stable_path stable_disk_path
  require_stable_path-Emits d = search (emits_rules, reads) depth 30

  pub require_capacity-Emits :
      (config : InstallerConfig) (n : ℤ) → Emits w P (require_capacity config n)
  unfolding require_capacity
  require_capacity-Emits config n = search (emits_rules, size_bytes-Emits) depth 30

  -- the checks before the drive is looked at, and what comes after them
  pub execute-Emits :
      (config : InstallerConfig)
      → Emits w P (keeps_existing_drive config >>= λ kept. unless kept (check_and_prepare config))
      → Emits w P (Drive.execute config)
  unfolding Drive.execute
  execute-Emits config h =
      Emits-if (config.usb_boot.device == config.storage.target_disk) _ _ (search emits_rules) (
        Emits-bind (require_disk config.usb_boot.device) _ (require_disk-Emits _) λ _.
          Emits-bind (require_stable_path config.storage.target_disk) _
            (require_stable_path-Emits _) λ _. h)

module _ (w : Machine) (P : Event → Type 0) (reads : (c : Probe) → P (ran (plain (probe c))))
    (sleeps : (n : ℕ) → P (slept n))
    (polls : (d : String) → P (ran (plain (disk (Disks.partprobe d))))) where
  pub partition_wait_loop-Emits : (d p : String) (n : ℕ) → Emits w P (partition_wait_loop d p n)
  unfolding partition_wait_loop path_exists
  partition_wait_loop-Emits d p zero = search emits_rules
  partition_wait_loop-Emits d p (suc n) =
      Emits-bind (path_exists p) _ (search (emits_rules, reads) depth 30) λ found.
        Emits-if found _ _ (search emits_rules) (
          Emits-bind (sleep 1) _ (search (emits_rules, sleeps)) (λ _.
            Emits-bind (do_attempt (disk (Disks.partprobe d))) _
              (search (emits_rules, polls) depth 30) (λ _. partition_wait_loop-Emits d p n)))
