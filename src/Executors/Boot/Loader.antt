-- ===== src/Executors/Boot/Loader.antt =====
-- executors/boot.py: `BootloaderStepExecutor`.
use arch_installer.Prelude.{String, List, [], ◌∷◌, if◌then◌else◌}
use arch_installer.Core.Commands.{chroot}
use arch_installer.Core.Commands.Chroot
use arch_installer.Core.Exec.{Exec, Done, do_run, for_each, ◌>>◌}
use arch_installer.Config.Models.{InstallerConfig}
use arch_installer.Executors.Base.{write_file}
use arch_installer.Executors.Boot.Texts.{loader_conf}
use arch_installer.Executors.Boot.SecureBoot.{sign_if_present}

abbrev pub bootloader_binaries : List String
bootloader_binaries = "/efi/EFI/BOOT/BOOTX64.EFI" ∷ "/efi/EFI/systemd/systemd-bootx64.efi" ∷ []

unfoldable pub install_on_usb_boot_drive : Exec Done
install_on_usb_boot_drive = do
  do_run (chroot (Chroot.install_bootloader " --variables=no --random-seed=no"))
  do_run (chroot (Chroot.mask_unit "systemd-boot-random-seed.service"))

unfoldable pub execute : InstallerConfig → Exec Done
execute config = do
  if config.usb_boot.enabled
      then install_on_usb_boot_drive
      else do_run (chroot (Chroot.install_bootloader ""))
  write_file "/mnt/efi/loader/loader.conf" (loader_conf config.boot.loader)
  for_each bootloader_binaries sign_if_present
