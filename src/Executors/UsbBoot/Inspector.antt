-- ===== src/Executors/UsbBoot/Inspector.antt =====
-- executors/usb_boot.py: `UsbDriveInspector`.
use arch_installer.Prelude.{
  String, ◌<>◌, ◌==◌, Bool, not, ◌||◌, ℕ, zero, suc, ℤ, Option, none, some, parse_int, strip,
  after_last, if◌then◌else◌,
}
use arch_installer.Errors.{usb_boot_drive_error, value_error}
use arch_installer.Core.Commands.{probe, disk}
use arch_installer.Core.Commands.Probes.{Probe}
use arch_installer.Core.Commands.Disks
use arch_installer.Core.Exec.{
  Exec, Done, pure, raise, run, attempt, do_attempt, succeeds, sleep, success, ◌>>=◌, ◌>>◌,
}
use arch_installer.Executors.Base.{path_exists}

-- whether the disk is removable only decides on a warning
unfoldable pub require_disk : String → Exec Done
require_disk device = do
  result ← attempt (probe (Probe.device_type device))
  if not (success result) || not (strip result.stdout == "disk")
      then raise (usb_boot_drive_error (device <> " is not a disk"))
      else do_attempt (probe (Probe.removable (after_last 47 device)))

unfoldable pub parsed_or_raise : Option ℤ → Exec ℤ
parsed_or_raise none = raise (value_error "invalid literal for int()")
parsed_or_raise (some n) = pure n

-- `int(...)`
unfoldable pub int_of : String → Exec ℤ
int_of shown = parsed_or_raise (parse_int shown)

unfoldable pub size_bytes : String → Exec ℤ
size_bytes device = do result ← run (probe (Probe.device_size device)); int_of (strip result.stdout)

-- The polls of `wait_for_partition` that are left.
unfoldable pub partition_wait_loop : String → String → ℕ → Exec Done
partition_wait_loop device partition zero =
    raise (usb_boot_drive_error (partition <> " did not appear on " <> device))
partition_wait_loop device partition (suc polls) = do
  exists ← path_exists partition
  let again = (do
    sleep 1
    do_attempt (disk (Disks.partprobe device))
    partition_wait_loop device partition polls)
  if exists then pure tt else again

unfoldable pub wait_for_partition : String → String → Exec Done
wait_for_partition device partition = partition_wait_loop device partition 15

unfoldable pub holds_luks_header : String → Exec Bool
holds_luks_header partition = succeeds (probe (Probe.is_luks partition))
