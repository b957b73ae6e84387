-- ===== src/Executors/UsbBoot/Cloner.antt =====
-- executors/usb_boot.py: `UsbBootDriveCloner`.
use arch_installer.Prelude.{
  String, ◌<>◌, ◌==◌, Bool, Option, none, some, List, [], ◌∷◌, ℕ, suc, get_elem?, strip,
  if◌then◌else◌,
}
use arch_installer.Errors.{usb_boot_drive_error}
use arch_installer.Core.Commands.{probe, disk}
use arch_installer.Core.Commands.Probes.{Probe}
use arch_installer.Core.Commands.Disks
use arch_installer.Core.Exec.{Exec, Done, pure, raise, run, do_run, do_attempt, ◌>>=◌, ◌>>◌}
use arch_installer.Config.Models.Storage.{derive_partition_path}
use arch_installer.Executors.Base.{path_exists}
use arch_installer.Executors.UsbBoot.Inspector.{require_disk, wait_for_partition, holds_luks_header}

abbrev pub cons_if : Bool → String → List String → List String
cons_if b x xs = if b then x ∷ xs else xs

-- the partitions among 1, 2 and 3 that exist
unfoldable pub existing_partitions : String → Exec (List String)
existing_partitions device = do
  first ← path_exists (derive_partition_path device 1)
  second ← path_exists (derive_partition_path device 2)
  third ← path_exists (derive_partition_path device 3)
  pure (
      cons_if first (derive_partition_path device 1) (
        cons_if second (derive_partition_path device 2)
          (cons_if third (derive_partition_path device 3) [])))

unfoldable pub no_header : String → Exec Done
no_header source_device =
    raise (usb_boot_drive_error (source_device <> " is not a USB boot drive (no LUKS header)"))

unfoldable pub require_header : String → Option String → Exec Done
require_header source_device none = no_header source_device
require_header source_device (some partition) = do
  holds ← holds_luks_header partition
  if holds then pure tt else no_header source_device

unfoldable pub require_unmounted : String → Exec Done
require_unmounted spare_device = do
  mountpoints ← run (probe (Probe.mountpoints spare_device))
  if strip mountpoints.stdout == ""
      then pure tt
      else raise (usb_boot_drive_error (spare_device <> " has mounted partitions"))

-- The copy of each source partition, and its number on the spare drive.
unfoldable pub copy_partitions : String → ℕ → List String → Exec Done
copy_partitions spare_device number [] = pure tt
copy_partitions spare_device number (source_partition ∷ source_partitions) = do
  let spare_partition = derive_partition_path spare_device number
  wait_for_partition spare_device spare_partition
  do_run (disk (Disks.copy_device source_partition spare_partition))
  copy_partitions spare_device (suc number) source_partitions

-- `cmp {source_partitions[1]} {spare_partitions[1]}`
unfoldable pub compare_headers : String → Option String → Exec Done
compare_headers spare_device none = pure tt
compare_headers spare_device (some header) =
    do_run (probe (Probe.compare_devices header (derive_partition_path spare_device 2)))

unfoldable pub copy_drive : String → String → List String → Exec Done
copy_drive source_device spare_device source_partitions = do
  do_attempt (disk (Disks.wipefs spare_device))
  do_run (disk (Disks.replicate_table spare_device source_device))
  do_attempt (disk (Disks.move_backup_table spare_device))
  do_attempt (disk (Disks.partprobe spare_device))
  do_attempt (disk Disks.settle)
  copy_partitions spare_device 1 source_partitions
  compare_headers spare_device (get_elem? source_partitions 1)

unfoldable pub clone : String → String → Exec Done
clone source_device spare_device =
    if source_device == spare_device
    then raise
        (usb_boot_drive_error "The spare drive must be another drive than the USB boot drive")
    else (do
      require_disk source_device
      require_disk spare_device
      source_partitions ← existing_partitions source_device
      require_header source_device (get_elem? source_partitions 1)
      require_unmounted spare_device
      copy_drive source_device spare_device source_partitions)
