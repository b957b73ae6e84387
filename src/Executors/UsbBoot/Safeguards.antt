-- ===== src/Executors/UsbBoot/Safeguards.antt =====
-- executors/usb_boot.py: `UsbBootSafeguardsStepExecutor`, on the installed system.
pub mod Texts
use arch_installer.Prelude.{String, ◌<>◌, if◌then◌else◌}
use arch_installer.Core.Commands.{probe, files}
use arch_installer.Core.Commands.Probes.{Probe}
use arch_installer.Core.Commands.Files
use arch_installer.Core.Exec.{Exec, Done, pure, run, do_run, ◌>>=◌, ◌>>◌}
use arch_installer.Config.Models.Storage.{usb_efi_partition}
use arch_installer.Config.Models.{InstallerConfig}
use arch_installer.Executors.Base.{partition_uuid, write_file}
use arch_installer.Executors.UsbBoot.Safeguards.Texts.{
  removable_efi_fstab, usb_boot_settings, usb_boot_guard_script_content, usb_boot_guard_hook,
  snapshot_catch_up_rule, snapshot_catch_up_service_content,
}

unfoldable pub mount_efi_on_demand : String → Exec Done
mount_efi_on_demand efi_partition_uuid = do
  fstab ← run (probe (Probe.cat "/mnt/etc/fstab"))
  write_file "/mnt/etc/fstab" (removable_efi_fstab fstab.stdout efi_partition_uuid)

unfoldable pub install_update_guard : String → Exec Done
install_update_guard efi_partition_uuid = do
  write_file "/mnt/etc/default/usb-boot-drive" (usb_boot_settings efi_partition_uuid)
  do_run (files (Files.make_directory "/mnt/etc/pacman.d/hooks /mnt/usr/local/bin"))
  write_file "/mnt/usr/local/bin/check-usb-boot-drive" usb_boot_guard_script_content
  do_run (files (Files.set_mode "755" "/mnt/usr/local/bin/check-usb-boot-drive"))
  write_file "/mnt/etc/pacman.d/hooks/00-usb-boot-drive.hook" usb_boot_guard_hook

unfoldable pub install_snapshot_catch_up : String → Exec Done
install_snapshot_catch_up efi_partition_uuid = do
  do_run (files (Files.make_directory "/mnt/etc/udev/rules.d"))
  write_file "/mnt/etc/udev/rules.d/90-usb-boot-drive.rules"
      (snapshot_catch_up_rule efi_partition_uuid)
  write_file "/mnt/etc/systemd/system/snapshot-ukis-catch-up.service"
      snapshot_catch_up_service_content

unfoldable pub execute : InstallerConfig → Exec Done
execute config = do
  efi_partition_uuid ← partition_uuid (usb_efi_partition config.usb_boot)
  mount_efi_on_demand efi_partition_uuid
  install_update_guard efi_partition_uuid
  if config.boot.enable_snapshot_boot then install_snapshot_catch_up efi_partition_uuid else pure tt
