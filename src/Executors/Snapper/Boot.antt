-- ===== src/Executors/Snapper/Boot.antt =====
-- executors/snapper.py: `BootableSnapshotsStepExecutor`.
use arch_installer.Prelude.{String, List, [], ◌∷◌}
use arch_installer.Errors.{index_error}
use arch_installer.Core.Commands.{files, chroot}
use arch_installer.Core.Commands.Files
use arch_installer.Core.Commands.Chroot
use arch_installer.Core.Exec.{Exec, Done, pure, raise, do_run, ◌>>=◌, ◌>>◌}
use arch_installer.Config.Models.Boot.{kernel_packages}
use arch_installer.Config.Models.{InstallerConfig}
use arch_installer.Executors.Base.{write_file}
use arch_installer.Executors.Snapper.Texts.{
  snapshot_manager_settings, snapshot_refresh_pacman_hook, snapshot_refresh_hook_script_content,
  snapshot_boot_entries_service, snapshot_boot_entries_path,
}

-- `kernel_packages[0]`
unfoldable pub first_kernel : List String → Exec String
first_kernel [] = raise index_error
first_kernel (kernel ∷ kernels) = pure kernel

unfoldable pub execute : InstallerConfig → Exec Done
execute config = do
  preferred ← first_kernel (kernel_packages config.boot)
  write_file "/mnt/etc/default/manage-snapshot-ukis"
      (snapshot_manager_settings config.snapper.bootable_snapshot_count preferred)
  do_run (files (Files.make_directory "/mnt/etc/pacman.d/hooks /mnt/usr/local/bin"))
  write_file "/mnt/etc/pacman.d/hooks/95-snapshot-uki-refresh.hook"
      (snapshot_refresh_pacman_hook (kernel_packages config.boot))
  write_file "/mnt/usr/local/bin/refresh-snapshot-ukis" snapshot_refresh_hook_script_content
  do_run (files (Files.set_mode "+x" "/mnt/usr/local/bin/refresh-snapshot-ukis"))
  write_file "/mnt/etc/systemd/system/snapper-boot-entries.service" snapshot_boot_entries_service
  write_file "/mnt/etc/systemd/system/snapper-boot-entries.path" snapshot_boot_entries_path
  do_run (chroot (Chroot.enable_unit "snapper-boot-entries.path"))
