-- ===== src/Tests/Drives.antt =====
-- The USB boot drive and the kernel images on concrete machines.
use arch_installer.Prelude.{
  ◌≡◌, refl, subst, true, String, ◌≤◌, ◌+◌, ◌*◌, pos, pos_part, contains, lower, split_on,
}
use arch_installer.Errors.{ExitCode, status}
use arch_installer.Core.Commands.{chroot}
use arch_installer.Core.Commands.Chroot
use arch_installer.Core.Exec.{Machine, completed, plain}
use arch_installer.Core.Exec.Emits.{Emits, Prints}
use arch_installer.Core.Exec.Devices.{OverwritesIn, IsReadOnly}
use arch_installer.Executors.UsbBoot.Drive
use arch_installer.Executors.UsbBoot.Drive.{mebibyte, recovery_partition_size_mb}
use arch_installer.Executors.UsbBoot.Cloner.{clone}
use arch_installer.Executors.UsbBoot.Safety.{
  drive_devices, execute-drive_devices, execute-keeps_header,
}
use arch_installer.Executors.UsbBoot.Cloning.{OverwritesDisk, clone-OverwritesDisk}
use arch_installer.Executors.UsbBoot.Capacity.{recovery_partition_size_mb-fits}
use arch_installer.Executors.Boot.Images
use arch_installer.Executors.Boot.SecureBoot.{setup_mode_answer}
use arch_installer.Executors.Boot.Enrollment.{
  IsNotEnrollment, denies_setup_mode, execute-IsNotEnrollment,
}
use arch_installer.Tests.Fixtures.{sample_config, quiet}

execute-drive_devices_example :
    Emits quiet (OverwritesIn (drive_devices sample_config)) (Drive.execute sample_config)
execute-drive_devices_example = execute-drive_devices quiet sample_config

execute-keeps_header_example : Emits quiet IsReadOnly (Drive.execute sample_config)
execute-keeps_header_example = execute-keeps_header quiet sample_config (λ tr. refl) refl refl

clone-OverwritesDisk_example : Emits quiet (OverwritesDisk "/dev/sdc") (clone "/dev/sdb" "/dev/sdc")
clone-OverwritesDisk_example = clone-OverwritesDisk quiet "/dev/sdb" "/dev/sdc"

recovery_partition_size_mb-fits_example :
    11 * 1200000000 + 631 * mebibyte
    ≤ 10 * (pos_part (recovery_partition_size_mb (pos 1200000000)) * mebibyte)
recovery_partition_size_mb-fits_example = recovery_partition_size_mb-fits 1200000000

-- Every command succeeds and prints a status of Secure Boot without setup mode.
abbrev locked : Machine
locked tr i = completed (status 0) "Installed: yes\nSetup Mode: Disabled\nSecure Boot: Enabled" ""

shown :
    (a b : ExitCode) (out out' p q : String) → completed a out p ≡ completed b out' q → out ≡ out'
shown a b out out' p q e = cc

locked-denies : Prints locked (plain (chroot Chroot.secure_boot_status)) denies_setup_mode
unfolding setup_mode_answer contains lower split_on
locked-denies tr code out problem e =
    subst (λ o. denies_setup_mode o ≡ true) (shown _ _ _ _ _ _ e) refl

execute-IsNotEnrollment_example :
    Emits locked IsNotEnrollment (Images.execute (λ kernel. kernel) sample_config)
execute-IsNotEnrollment_example =
    execute-IsNotEnrollment locked (λ kernel. kernel) sample_config locked-denies
