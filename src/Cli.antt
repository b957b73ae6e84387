-- ===== src/Cli.antt =====
-- cli.py: what the install command requires of a configuration, and the exit statuses.
pub mod Readiness
pub mod Terminal
pub mod Prompts
pub mod Assembly
pub mod Entries
pub mod SecretCommands
use arch_installer.Prelude.{
  String, ◌<>◌, ◌==◌, Bool, not, ◌&&◌, List, [], ◌∷◌, ◌++◌, ℕ, join, if◌then◌else◌,
}
use arch_installer.Errors.{
  Error, configuration_error, keyboard_interrupt, is_arch_installer_error, Result, ok, err,
}
use arch_installer.Config.Models.Enums.{WipeMethod, leaves_old_content}
use arch_installer.Config.Models.{InstallerConfig}

-- `problems.append(problem)` under a test
abbrev pub problem_if : Bool → String → List String
problem_if b problem = if b then problem ∷ [] else []

-- the branches of `if` and `elif` on the drive
unfoldable pub drive_problems : InstallerConfig → List String
drive_problems config =
    if config.usb_boot.device == ""
    then "USB boot needs a drive (USB_BOOT_DEVICE or usb_boot.device)" ∷ []
    else problem_if (config.usb_boot.device == config.storage.target_disk)
        ("the USB boot drive and the target disk are both " <> config.usb_boot.device)

-- `_usb_boot_problems`
unfoldable pub usb_boot_problems : InstallerConfig → List String
usb_boot_problems config =
    drive_problems config
    ++ (problem_if (config.usb_boot.recovery_system && config.usb_boot.iso_path == "")
          "the recovery system needs an Arch ISO (ISO_PATH or usb_boot.iso_path)"
        ++ problem_if
            (not config.migration.enabled && leaves_old_content config.storage.wipe_method)
            ("ciphertext without a header only hides on a disk filled with random data: "
              <> "WIPE_METHOD secure, or skip for a disk filled before"))

unfoldable pub install_problems : InstallerConfig → List String
install_problems config =
    problem_if (config.credentials.luks_password == "")
      "no LUKS password (LUKS_PASSWORD or encrypted secrets)"
    ++ (problem_if (config.credentials.user_password == "")
          "no user password (USER_PASSWORD or encrypted secrets)"
        ++ (problem_if (config.storage.target_disk == "")
              "no target disk (TARGET_DISK or storage.target_disk)"
            ++ (problem_if
                  (config.migration.enabled && config.credentials.source_luks_password == "")
                  "migration needs the old LUKS password (SOURCE_LUKS_PASSWORD)"
                ++ (if config.usb_boot.enabled then usb_boot_problems config else []))))

unfoldable pub refuse_problems : List String → Result (Unit {0})
refuse_problems [] = ok tt
refuse_problems (problem ∷ problems) = err (
    configuration_error
      ("Cannot start the installation:\n  - " <> join "\n  - " (problem ∷ problems)))

unfoldable pub validate_for_install : InstallerConfig → Result (Unit {0})
unfolding refuse_problems
validate_for_install config = refuse_problems (install_problems config)

-- What a run of the program ends with: an exit status, or an error that `_run` lets through.
pub data Ending : Type 0 where
  exited : ℕ → Ending
  uncaught : Error → Ending

abbrev ending_of_error : Error → Ending
ending_of_error (keyboard_interrupt m) = exited 130
ending_of_error e = if is_arch_installer_error e then exited 1 else uncaught e

-- `_run`, from what `entry(environment)` gives
unfoldable pub run_entry : {A : Type 0} → Result A → Ending
unfolding is_arch_installer_error
run_entry (ok a) = exited 0
run_entry (err e) = ending_of_error e
