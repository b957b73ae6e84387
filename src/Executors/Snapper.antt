-- ===== src/Executors/Snapper.antt =====
-- executors/snapper.py: `SnapperStepExecutor`; its child modules are the other two steps and the texts.
pub mod Texts
pub mod Boot
pub mod Notifications
use arch_installer.Prelude.{String, ◌<>◌, join, Bool, List, [], map, if◌then◌else◌}
use arch_installer.Core.Commands.{probe, disk, files, chroot}
use arch_installer.Core.Commands.Probes.{Probe}
use arch_installer.Core.Commands.Disks
use arch_installer.Core.Commands.Files
use arch_installer.Core.Commands.Chroot
use arch_installer.Core.Exec.{Exec, Done, pure, do_run, do_attempt, succeeds, for_each, ◌>>=◌, ◌>>◌}
use arch_installer.Config.Models.Features.{SnapperVolumeConfig, volumes}
use arch_installer.Config.Models.Storage.{cryptroot_device}
use arch_installer.Config.Models.{InstallerConfig}
use arch_installer.Executors.Base.{is_mountpoint, file_exists, directory_exists, write_file}
use arch_installer.Executors.Snapper.Texts.{snapper_volume_config, snap_pac_root_config}

unfoldable pub remove_nested : String → Exec Done
remove_nested snapshots_directory = do
  is_subvolume ← succeeds (probe (Probe.show_subvolume snapshots_directory))
  if is_subvolume
      then do_attempt (files (Files.delete_subvolume snapshots_directory))
      else do_attempt (files (Files.remove_directory snapshots_directory))

unfoldable pub prepare_snapshots_subvolume : InstallerConfig → SnapperVolumeConfig → Exec Done
prepare_snapshots_subvolume config volume = do
  let snapshots_directory = "/mnt" <> volume.snapshots_path
  mounted ← is_mountpoint snapshots_directory
  if mounted then do_run (disk (Disks.unmount snapshots_directory)) else pure tt
  exists ← directory_exists snapshots_directory
  if exists then remove_nested snapshots_directory else pure tt
  do_run (files (Files.make_directory snapshots_directory))
  do_run (
      disk (
        Disks.mount
          ("btrfs -o subvol=" <> volume.snapshots_subvolume <> ","
            <> config.storage.btrfs.mount_options)
          cryptroot_device snapshots_directory))
  do_run (files (Files.set_mode "750" snapshots_directory))

unfoldable pub configure_volume : InstallerConfig → String × SnapperVolumeConfig → Exec Done
configure_volume config (name, volume) = do
  let config_file = "/mnt/etc/snapper/configs/" <> name
  exists ← file_exists config_file
  if exists then pure tt else prepare_snapshots_subvolume config volume
  write_file config_file (snapper_volume_config volume config.snapper.allow_groups)

unfoldable pub ensure_snapper : Exec Done
ensure_snapper = do
  installed ← succeeds (chroot (Chroot.query_package "snapper"))
  if installed then pure tt else do_run (chroot (Chroot.install_package "snapper snap-pac"))

unfoldable pub execute : InstallerConfig → Exec Done
execute config = do
  ensure_snapper
  do_run (files (Files.make_directory "/mnt/etc/snapper/configs"))
  do_run (files (Files.make_directory "/mnt/etc/conf.d"))
  for_each (volumes config.snapper) (configure_volume config)
  write_file "/mnt/etc/conf.d/snapper"
      ("SNAPPER_CONFIGS=\"" <> join " " (map (λ p. p.0) (volumes config.snapper)) <> "\"\n")
  do_run (chroot (Chroot.enable_unit "snapper-timeline.timer"))
  do_run (chroot (Chroot.enable_unit "snapper-cleanup.timer"))
  if config.snapper.snap_pac
      then (do
        do_run (files (Files.make_directory "/mnt/etc/snap-pac.d"))
        write_file "/mnt/etc/snap-pac.d/root.conf" snap_pac_root_config)
      else pure tt
