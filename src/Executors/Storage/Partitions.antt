-- ===== src/Executors/Storage/Partitions.antt =====
-- executors/storage.py: what is done to the disk before it holds a LUKS volume.
use arch_installer.Prelude.{
  String, ◌<>◌, ◌==◌, contains, strip, split_on, split_words, Bool, ◌||◌, List, [], ◌∷◌, ℕ, zero,
  suc, show_int, if◌then◌else◌,
}
use arch_installer.Errors.{runtime_error, value_error}
use arch_installer.Core.Commands.{probe, disk}
use arch_installer.Core.Commands.Probes.{Probe}
use arch_installer.Core.Commands.Disks
use arch_installer.Core.Exec.{
  Exec, Done, pure, raise, run, attempt, do_run, do_attempt, succeeds, sleep, for_each, ◌>>=◌, ◌>>◌,
}
use arch_installer.Config.Models.Enums.{WipeMethod}
use arch_installer.Config.Models.Storage.{cryptroot_mapper_name}
use arch_installer.Config.Models.{InstallerConfig, encrypted_device, efi_partition}
use arch_installer.Executors.Base.{path_exists}

-- `_wipe_method`
unfoldable pub effective_wipe_method : InstallerConfig → WipeMethod
effective_wipe_method config =
    if config.migration.enabled
    then if config.usb_boot.enabled then WipeMethod.secure else WipeMethod.quick
    else config.storage.wipe_method

unfoldable pub cleanup_stale_mounts : Exec Done
cleanup_stale_mounts = do
  do_attempt (disk (Disks.unmount_tree "/mnt"))
  do_attempt (disk Disks.swapoff_all)
  do_attempt (disk (Disks.luks_close cryptroot_mapper_name))
  do_attempt (disk (Disks.luks_close "container"))
  do_attempt (disk Disks.remove_all_mappings)

-- `all(...)` stops at the first partition that is missing
unfoldable pub partitions_exist : InstallerConfig → Exec Bool
partitions_exist config = do
  has_efi ← succeeds (probe (Probe.list_device (efi_partition config)))
  if has_efi then succeeds (probe (Probe.list_device (encrypted_device config))) else pure has_efi

-- the branch of `_wipe_disk` for the wipe method
unfoldable pub fill_disk : String → WipeMethod → Exec Done
fill_disk target WipeMethod.secure = do
  shredded ← succeeds (disk (Disks.shred target))
  if shredded then pure tt else do_attempt (disk (Disks.random_fill target))
  do_run (disk Disks.sync)
  do_attempt (disk (Disks.flush_buffers target))
  sleep 2
fill_disk target WipeMethod.discard = do_attempt (disk (Disks.discard target))
fill_disk target _ = pure tt

-- `_wipe_disk` on the target disk
unfoldable pub wipe_disk : String → WipeMethod → Exec Done
wipe_disk target method = do
  do_attempt (disk (Disks.wipefs target))
  do_attempt (disk (Disks.zap_partition_table target))
  do_attempt (disk (Disks.wipefs target))
  fill_disk target method
  do_attempt (disk (Disks.reread_table target))
  do_attempt (disk Disks.settle)
  do_attempt (disk (Disks.partprobe target))
  sleep 2

is_empty_size : String → Bool
is_empty_size size = size == "" || size == "0"

device_size : String → Exec String
device_size target = do
  result ← attempt (probe (Probe.device_size target))
  pure (strip result.stdout)

unfoldable pub prepare_loop_device : String → Exec Done
unfolding is_empty_size device_size
prepare_loop_device target = do
  size ← device_size target
  if is_empty_size size
      then (do
        do_attempt (disk (Disks.grow_loop_device target))
        size ← device_size target
        if is_empty_size size
            then raise
                (runtime_error ("Loop device " <> target <> " has 0 size. Cannot partition."))
            else pure tt)
      else pure tt

-- `major, minor = major_minor.split(":")`, then `mknod`
unfoldable pub make_node_from : String → List String → Exec Done
make_node_from device_node (major ∷ (minor ∷ [])) =
    do_run (disk (Disks.make_node device_node major minor))
make_node_from device_node _ = raise (value_error "wrong number of values to unpack")

-- one line of the listing: name, numbers and type
unfoldable pub create_node : List String → Exec Done
create_node (name ∷ (major_minor ∷ (kind ∷ rest))) =
    if kind == "part"
    then (do
      let device_node = "/dev/" <> name
      exists ← path_exists device_node
      if exists then pure tt else make_node_from device_node (split_on 58 major_minor))
    else pure tt
create_node _ = pure tt

unfoldable pub create_loop_partition_nodes : String → Exec Done
create_loop_partition_nodes target = do
  listing ← run (probe (Probe.list_nodes target))
  for_each (split_on 10 (strip listing.stdout)) (λ line. create_node (split_words line))

-- The polls of `_wait_for_partitions` that are left.
unfoldable pub wait_loop : String → String → ℕ → Exec Done
wait_loop device target zero = raise (runtime_error ("Partition " <> device <> " failed to appear"))
wait_loop device target (suc polls) = do
  exists ← path_exists device
  let again = (do
    sleep 1
    do_attempt (disk (Disks.partprobe target))
    wait_loop device target polls)
  if exists then pure tt else again

unfoldable pub wait_for_partitions : InstallerConfig → Exec Done
wait_for_partitions config = wait_loop (encrypted_device config) config.storage.target_disk 20

unfoldable pub create_partitions : InstallerConfig → Exec Done
create_partitions config = do
  let target = config.storage.target_disk
  let efi_size = "+" <> show_int config.storage.efi_size_mb <> "M"
  if contains "loop" target then prepare_loop_device target else pure tt
  do_run (disk (Disks.zap_partition_table target))
  do_run (disk (Disks.new_partition 1 efi_size "ef00" target))
  do_run (disk (Disks.new_partition 2 "0" "8304" target))
  do_attempt (disk (Disks.partprobe target))
  do_attempt (disk (Disks.reread_table target))
  if contains "loop" target then create_loop_partition_nodes target else pure tt
  wait_for_partitions config
