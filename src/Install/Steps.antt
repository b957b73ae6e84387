-- ===== src/Install/Steps.antt =====
-- install_steps/registry.py: the steps by name, in run order.
use arch_installer.Prelude.{String, List, [], ◌∷◌}

pub data InstallStep : Type 0 where
  migration_staging usb_boot_drive storage pacman_mirrors packages migration_restore system docker
        gpu_driver kernel_images bootloader recovery_system snapper bootable_snapshots
        snapshot_notifications firewall usb_boot_safeguards :
      InstallStep

-- `list(InstallStep)`
abbrev pub run_order : List InstallStep
run_order =
    migration_staging ∷ usb_boot_drive ∷ storage ∷ pacman_mirrors ∷ packages ∷ migration_restore
    ∷ system ∷ docker ∷ gpu_driver ∷ kernel_images ∷ bootloader ∷ recovery_system ∷ snapper
    ∷ bootable_snapshots ∷ snapshot_notifications ∷ firewall ∷ usb_boot_safeguards ∷ []

abbrev pub step_text : InstallStep → String
step_text migration_staging = "Migration staging"
step_text usb_boot_drive = "USB boot drive"
step_text storage = "Storage"
step_text pacman_mirrors = "Pacman mirrors"
step_text packages = "Packages"
step_text migration_restore = "Migration restore"
step_text system = "System"
step_text docker = "Docker"
step_text gpu_driver = "GPU driver"
step_text kernel_images = "Kernel images"
step_text bootloader = "Bootloader"
step_text recovery_system = "Recovery system"
step_text snapper = "Snapper"
step_text bootable_snapshots = "Bootable snapshots"
step_text snapshot_notifications = "Snapshot notifications"
step_text firewall = "Firewall"
step_text usb_boot_safeguards = "USB boot safeguards"
