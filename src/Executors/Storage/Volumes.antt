-- ===== src/Executors/Storage/Volumes.antt =====
-- executors/storage.py: the LUKS volume, BTRFS, the EFI partition and the swapfile.
use arch_installer.Prelude.{
  String, ◌<>◌, ◌==◌, contains, strip, lower, split_on, split_words, split_lines, split_text,
  last_or, member, map, keep, false, Option, none, some, Bool, ◌&&◌, List, show_int, if◌then◌else◌,
}
use arch_installer.Errors.{runtime_error}
use arch_installer.Core.Commands.{probe, disk, files}
use arch_installer.Core.Commands.Probes.{Probe}
use arch_installer.Core.Commands.Disks
use arch_installer.Core.Commands.Files
use arch_installer.Core.Exec.{
  Exec, Done, success, pure, raise, attempt, do_run, do_attempt, succeeds, feed, run_with, sleep,
  for_each, ◌>>=◌, ◌>>◌,
}
use arch_installer.Config.Models.Storage.{
  LuksConfig, SubvolumeConfig, cryptroot_device, cryptroot_mapper_name, usb_luks_header_partition,
}
use arch_installer.Config.Models.{
  InstallerConfig, encrypted_device, efi_partition, luks_header_device,
}
use arch_installer.Executors.Base.{is_mountpoint, file_exists}

-- the device of the detached header, that `--header` names
unfoldable pub detached_header_device : InstallerConfig → Option String
detached_header_device config =
    if config.usb_boot.enabled then some (usb_luks_header_partition config.usb_boot) else none

unfoldable pub detached_header_option : InstallerConfig → String
detached_header_option config = Disks.header_option (detached_header_device config)

unfoldable pub luks_is_usable : InstallerConfig → Exec Bool
luks_is_usable config = do
  has_header ← succeeds (probe (Probe.is_luks (luks_header_device config)))
  if has_header
      then (do
        unlocks ← run_with false (record {
          command =
              probe
                (Probe.test_passphrase (detached_header_option config) (encrypted_device config));
          input = some config.credentials.luks_password;
        })
        pure (success unlocks))
      else pure has_header

unfoldable pub format_options : LuksConfig → String
format_options luks =
    "--type "
    <> luks.type
    <> (" --cipher " <> luks.cipher)
    <> (" --key-size " <> show_int luks.key_size)
    <> (" --hash " <> luks.hash)
    <> (" --pbkdf " <> luks.pbkdf)
    <> (" --pbkdf-memory " <> show_int luks.pbkdf_memory)
    <> (" --pbkdf-parallel " <> show_int luks.pbkdf_parallel)
    <> (" --iter-time " <> show_int luks.pbkdf_time_ms)
    <> " "

unfoldable pub format_luks : InstallerConfig → Exec Done
format_luks config =
    feed
      (disk (
        Disks.luks_format (format_options config.storage.luks) (detached_header_device config)
          (encrypted_device config)))
      config.credentials.luks_password

unfoldable pub open_luks : InstallerConfig → Exec Done
open_luks config = do
  feed
      (disk (
        Disks.luks_open (detached_header_device config) (encrypted_device config)
          cryptroot_mapper_name))
      config.credentials.luks_password
  sleep 1
  do_attempt (disk Disks.settle)

-- the last word of each line of the status that names a device
unfoldable pub backing_devices : String → List String
backing_devices status =
    map (λ line. last_or "" (split_words line)) (keep (contains "device:") (split_lines status))

-- `cryptroot` is open already: on this device, or the step stops
unfoldable pub reuse_mapping : InstallerConfig → String → Exec Done
reuse_mapping config status =
    if member (encrypted_device config) (backing_devices status)
    then pure tt
    else raise (runtime_error (cryptroot_mapper_name <> " is open but points to the wrong device"))

unfoldable pub ensure_header : InstallerConfig → Exec Done
ensure_header config = do
  has_header ← succeeds (probe (Probe.is_luks (luks_header_device config)))
  if has_header then pure tt else format_luks config

unfoldable pub setup_luks : InstallerConfig → Exec Done
setup_luks config = do
  status ← attempt (probe (Probe.mapper_status cryptroot_mapper_name))
  if success status && contains "active" (lower status.stdout)
      then reuse_mapping config status.stdout
      else (do ensure_header config; open_luks config)

unfoldable pub create_subvolume : List String → SubvolumeConfig → Exec Done
create_subvolume existing subvolume =
    if member subvolume.name existing
    then pure tt
    else do_run (disk (Disks.create_subvolume ("/mnt/" <> subvolume.name)))

unfoldable pub listed_subvolumes : String → List String
listed_subvolumes listing =
    map (λ line. strip (last_or "" (split_text " path " line)))
      (keep (contains " path ") (split_on 10 (strip listing)))

unfoldable pub create_subvolumes : InstallerConfig → Exec Done
create_subvolumes config = do
  listing ← attempt (probe (Probe.list_subvolumes "/mnt"))
  for_each config.storage.btrfs.subvolumes (create_subvolume (listed_subvolumes listing.stdout))

unfoldable pub ensure_btrfs : String → Exec Done
ensure_btrfs label = do
  found ← attempt (probe (Probe.blkid cryptroot_device))
  if contains "TYPE=\"btrfs\"" found.stdout then pure tt else (do
    do_attempt (disk (Disks.wipefs cryptroot_device))
    do_run (disk Disks.sync)
    sleep 1
    do_run (disk (Disks.make_btrfs label cryptroot_device)))

unfoldable pub setup_btrfs : InstallerConfig → Exec Done
setup_btrfs config = do
  do_attempt (disk Disks.settle)
  ensure_btrfs config.storage.btrfs.label
  mounted ← is_mountpoint "/mnt"
  if mounted then pure tt else do_run (disk (Disks.mount "btrfs" cryptroot_device "/mnt"))
  create_subvolumes config
  do_run (disk (Disks.unmount "/mnt"))

unfoldable pub mount_subvolume : String → SubvolumeConfig → Exec Done
mount_subvolume mount_options subvolume = if subvolume.name == "@" then pure tt else (do
  let mountpoint = "/mnt" <> subvolume.mountpoint
  do_attempt (files (Files.make_directory mountpoint))
  do_run (
      disk (
        Disks.mount ("btrfs -o subvol=" <> subvolume.name <> "," <> mount_options) cryptroot_device
          mountpoint))
  if subvolume.nocow then do_attempt (files (Files.copy_on_write_off mountpoint)) else pure tt)

unfoldable pub ensure_vfat : String → Exec Done
ensure_vfat partition = do
  found ← attempt (probe (Probe.blkid partition))
  if contains "TYPE=\"vfat\"" found.stdout
      then pure tt
      else do_run (disk (Disks.make_vfat partition))

unfoldable pub mount_efi_partition : InstallerConfig → Exec Done
mount_efi_partition config = do
  ensure_vfat (efi_partition config)
  do_run (files (Files.make_directory "/mnt/efi"))
  do_run (disk (Disks.mount "vfat -o umask=0077" (efi_partition config) "/mnt/efi"))

unfoldable pub mount_filesystems : InstallerConfig → Exec Done
mount_filesystems config = do
  let mount_options = config.storage.btrfs.mount_options
  do_run (disk (Disks.mount ("btrfs -o subvol=@," <> mount_options) cryptroot_device "/mnt"))
  for_each config.storage.btrfs.subvolumes (mount_subvolume mount_options)
  mount_efi_partition config

unfoldable pub create_swapfile : InstallerConfig → Exec Done
create_swapfile config = do
  let size_mb = config.storage.swap.size_mb
  let swap_path = "/mnt" <> config.storage.swap.path
  exists ← file_exists swap_path
  if exists then do_attempt (files (Files.swap_on swap_path)) else (do
    do_run (files (Files.truncate swap_path))
    do_attempt (files (Files.copy_on_write_off swap_path))
    do_attempt (files (Files.no_compression swap_path))
    allocated ← succeeds (files (Files.allocate size_mb swap_path))
    if allocated then pure tt else do_run (files (Files.zero_fill size_mb swap_path))
    do_run (files (Files.set_mode "600" swap_path))
    do_run (files (Files.make_swap swap_path))
    do_run (files (Files.swap_on swap_path)))
