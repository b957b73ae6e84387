-- ===== src/Executors/Recovery.antt =====
-- executors/recovery.py: `RecoverySystemStepExecutor`, the signed recovery image on the USB boot drive.
pub mod Cleanup
use arch_installer.Prelude.{String, ◌<>◌, strip, if◌then◌else◌}
use arch_installer.Core.Commands.{probe, disk, files, chroot}
use arch_installer.Core.Commands.Probes.{Probe}
use arch_installer.Core.Commands.Disks
use arch_installer.Core.Commands.Files
use arch_installer.Core.Commands.Chroot
use arch_installer.Core.Exec.{Exec, Done, pure, run, do_run, do_attempt, finally, ◌>>=◌, ◌>>◌}
use arch_installer.Config.Models.Storage.{usb_recovery_partition}
use arch_installer.Config.Models.{InstallerConfig}
use arch_installer.Executors.Base.{file_exists, write_file, sbctl_db_key}
use arch_installer.Executors.UsbBoot.Drive.{recovery_mount}

abbrev pub recovery_uki : String
recovery_uki = "/efi/EFI/recovery/arch-recovery.efi"

abbrev pub recovery_entry_path : String
recovery_entry_path = "/efi/loader/entries/arch-recovery.conf"

abbrev pub recovery_build_directory : String
recovery_build_directory = "/var/tmp/recovery-system"

abbrev pub recovery_signing_directory : String
recovery_signing_directory = "/run/dali/recovery-signing"

abbrev pub root_image : String
root_image = "/run/dali/usb-recovery/arch/x86_64/airootfs.sfs"

unfoldable pub recovery_cmdline : String → String
recovery_cmdline recovery_filesystem_uuid =
    "archisobasedir=arch archisodevice=UUID=" <> recovery_filesystem_uuid <> " cms_verify=y"

unfoldable pub recovery_entry : String → String
recovery_entry live_system_version =
    "title    Arch Linux recovery (" <> live_system_version
    <> ")\nsort-key recovery\nefi      /EFI/recovery/arch-recovery.efi\n"

unfoldable pub make_signature : Exec Done
make_signature = do
  do_run (files (Files.make_signing_key recovery_signing_directory))
  do_run (files (Files.sign_image root_image recovery_signing_directory))

unfoldable pub remove_key : Exec Done
remove_key = do_attempt (files (Files.remove (recovery_signing_directory <> "/key.pem")))

-- the certificate, under both names that the live system looks for, as an initial image
unfoldable pub pack_certificate : String → Exec Done
pack_certificate build_directory = do
  do_run (
      files (
        Files.copy (recovery_signing_directory <> "/codesign.crt")
          (recovery_signing_directory <> "/codesign_CA.crt")))
  do_run (
      files (
        Files.pack_files (build_directory <> "/codesign-initramfs.cpio") recovery_signing_directory
          "codesign.crt codesign_CA.crt"))
  do_attempt (files (Files.remove_tree recovery_signing_directory))

unfoldable pub sign_root_image : String → Exec Done
sign_root_image build_directory = do
  do_run (files (Files.remove_tree recovery_signing_directory))
  do_run (files (Files.make_private_directory recovery_signing_directory))
  finally make_signature remove_key
  pack_certificate build_directory

unfoldable pub build_uki : String → Exec Done
build_uki cmdline = do
  do_run (files (Files.make_directory "/mnt/efi/EFI/recovery"))
  do_run (
      chroot (
        Chroot.build_uki (
          "--linux=/var/tmp/recovery-system/vmlinuz-linux "
          <> "--initrd=/var/tmp/recovery-system/initramfs-linux.img "
          <> "--initrd=/var/tmp/recovery-system/codesign-initramfs.cpio --cmdline='" <> cmdline
          <> "' --output=" <> recovery_uki)))

unfoldable pub copy_boot_files : String → Exec Done
copy_boot_files build_directory = do
  do_run (
      files
        (Files.copy (recovery_mount <> "/arch/boot/x86_64/vmlinuz-linux") (build_directory <> "/")))
  do_run (
      files (
        Files.copy (recovery_mount <> "/arch/boot/x86_64/initramfs-linux.img")
          (build_directory <> "/")))

-- the body of the outer `try`: the version of the live system comes back
unfoldable pub build_image : String → String → Exec String
build_image filesystem_uuid build_directory = do
  version ← run (probe (Probe.cat (recovery_mount <> "/arch/version")))
  sign_root_image build_directory
  copy_boot_files build_directory
  build_uki (recovery_cmdline filesystem_uuid)
  pure (strip version.stdout)

unfoldable pub release_image : String → Exec Done
release_image build_directory = do
  do_attempt (disk (Disks.unmount recovery_mount))
  do_attempt (files (Files.remove_tree build_directory))

unfoldable pub sign_uki : Exec Done
sign_uki = do
  has_keys ← file_exists ("/mnt" <> sbctl_db_key)
  if has_keys then do_run (chroot (Chroot.sign recovery_uki)) else pure tt

unfoldable pub execute : InstallerConfig → Exec Done
execute config = do
  let recovery_partition = usb_recovery_partition config.usb_boot
  let build_directory = "/mnt" <> recovery_build_directory
  uuid ← run (probe (Probe.filesystem_uuid recovery_partition))
  do_run (files (Files.make_directory (recovery_mount <> " " <> build_directory)))
  do_run (disk (Disks.mount "ext4" recovery_partition recovery_mount))
  version ←
      finally (build_image (strip uuid.stdout) build_directory) (release_image build_directory)
  write_file ("/mnt" <> recovery_entry_path) (recovery_entry version)
  sign_uki
