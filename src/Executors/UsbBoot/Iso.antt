-- ===== src/Executors/UsbBoot/Iso.antt =====
-- executors/usb_boot.py: `ArchIsoImage`, a file or a block device that holds an Arch Linux ISO.
use arch_installer.Prelude.{String, ◌<>◌, ◌==◌, ℕ, ℤ, ◌*ℤ◌, show_nat, strip, if◌then◌else◌}
use arch_installer.Errors.{usb_boot_drive_error}
use arch_installer.Core.Commands.{probe, files}
use arch_installer.Core.Commands.Probes.{Probe}
use arch_installer.Core.Commands.Files
use arch_installer.Core.Exec.{Exec, Done, pure, raise, run, do_run, succeeds, ◌>>=◌, ◌>>◌}
use arch_installer.Executors.UsbBoot.Inspector.{int_of}

abbrev pub archiso_members : String
archiso_members =
    "arch/boot/x86_64/vmlinuz-linux arch/boot/x86_64/initramfs-linux.img arch/x86_64/airootfs.sfs"

-- `_read`
unfoldable pub read_text : String → ℕ → ℕ → String → Exec String
read_text source offset length format = do
  result ← run (probe (Probe.read_image source offset length format))
  pure (strip result.stdout)

unfoldable pub read_number : String → ℕ → ℕ → Exec ℤ
read_number source offset length = do
  shown ← read_text source offset length ("od -An -tu" <> show_nat length)
  int_of shown

-- a 32-bit block count and a 16-bit block size
unfoldable pub read_size : String → Exec ℤ
read_size source = do
  block_count ← read_number source 32848 4
  block_size ← read_number source 32896 2
  pure (block_count *ℤ block_size)

-- `size_bytes`
unfoldable pub image_size_bytes : String → Exec ℤ
image_size_bytes source = do
  signature ← read_text source 32769 5 "cat"
  if signature == "CD001"
      then (do
        listed ← succeeds (probe (Probe.list_image source archiso_members))
        if listed
            then read_size source
            else raise (
                usb_boot_drive_error (
                  source <> " is not an Arch Linux ISO (arch/boot/x86_64/vmlinuz-linux, "
                  <> "arch/boot/x86_64/initramfs-linux.img, arch/x86_64/airootfs.sfs)")))
      else raise (usb_boot_drive_error (source <> " is not an ISO 9660 image"))

unfoldable pub extract_live_system : String → String → Exec Done
extract_live_system source directory = do
  do_run (files (Files.extract_image source directory "arch"))
  do_run (files (Files.sync_files directory))
