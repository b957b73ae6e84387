-- ===== src/Install/Safety.antt =====
-- installer.py: which devices an installation overwrites.
use arch_installer.Prelude.{String, List, [], ◌++◌}
use arch_installer.Errors.{Result, ok, err}
use arch_installer.Core.Exec.{Machine, Exec}
use arch_installer.Core.Exec.Emits.{
  Emits, emits_rules, Emits-bind, Emits-for_each, Emits-pure, Emits-raise,
}
use arch_installer.Core.Exec.Devices.{
  path_rules, OverwritesIn, OverwritesIn-none, OverwritesIn-left, OverwritesIn-right,
}
use arch_installer.Config.Value.{Value}
use arch_installer.Config.Models.{InstallerConfig}
use arch_installer.Executors.Base.{file_exists, write_file}
use arch_installer.Executors.Harmless
use arch_installer.Executors.Harmless.Installed
use arch_installer.Executors.Harmless.Images
use arch_installer.Executors.Harmless.Staging
use arch_installer.Executors.Storage.Safety.{own_devices, execute-OverwritesIn}
use arch_installer.Executors.UsbBoot.Safety.{drive_devices, execute-drive_devices}
use arch_installer.Install.Steps.{InstallStep}
use arch_installer.Install.Registry.{wiring}
use arch_installer.Install.Installer.{
  install_script, install_utility_scripts, write_expected_state, write_final_config, or_raise,
  run_step, enabled_steps, install,
}

-- the target disk with what is on it, and the USB boot drive
abbrev pub install_devices : InstallerConfig → List String
install_devices c = own_devices c ++ drive_devices c

module _ (w : Machine) (repr : String → String) (c : InstallerConfig) where
  harmless :
      {A : Type 0} (m : Exec A)
      → Emits w (OverwritesIn []) m
      → Emits w (OverwritesIn (install_devices c)) m
  harmless m h = OverwritesIn-none m (install_devices c) h

  run_step-OverwritesIn :
      (step : InstallStep) → Emits w (OverwritesIn (install_devices c)) (run_step repr c step)
  unfolding run_step wiring
  run_step-OverwritesIn InstallStep.migration_staging =
      harmless _ (Staging.staging-OverwritesIn w c)
  run_step-OverwritesIn InstallStep.usb_boot_drive =
      OverwritesIn-right _ (own_devices c) (drive_devices c) (execute-drive_devices w c)
  run_step-OverwritesIn InstallStep.storage =
      OverwritesIn-left _ (own_devices c) (drive_devices c) (execute-OverwritesIn w c)
  run_step-OverwritesIn InstallStep.pacman_mirrors = harmless _ (Harmless.mirrors-OverwritesIn w c)
  run_step-OverwritesIn InstallStep.packages = harmless _ (Harmless.packages-OverwritesIn w c)
  run_step-OverwritesIn InstallStep.migration_restore =
      harmless _ (Installed.restore-OverwritesIn w c)
  run_step-OverwritesIn InstallStep.system = harmless _ (Harmless.system-OverwritesIn w c)
  run_step-OverwritesIn InstallStep.docker = harmless _ (Harmless.docker-OverwritesIn w c)
  run_step-OverwritesIn InstallStep.gpu_driver = harmless _ (Harmless.gpu-OverwritesIn w c)
  run_step-OverwritesIn InstallStep.kernel_images = harmless _ (Images.images-OverwritesIn w repr c)
  run_step-OverwritesIn InstallStep.bootloader = harmless _ (Harmless.loader-OverwritesIn w c)
  run_step-OverwritesIn InstallStep.recovery_system = harmless _ (Images.recovery-OverwritesIn w c)
  run_step-OverwritesIn InstallStep.snapper = harmless _ (Installed.snapper-OverwritesIn w c)
  run_step-OverwritesIn InstallStep.bootable_snapshots =
      harmless _ (Installed.snapshot_boot-OverwritesIn w c)
  run_step-OverwritesIn InstallStep.snapshot_notifications =
      harmless _ (Installed.notifications-OverwritesIn w c)
  run_step-OverwritesIn InstallStep.firewall = harmless _ (Harmless.firewall-OverwritesIn w c)
  run_step-OverwritesIn InstallStep.usb_boot_safeguards =
      harmless _ (Installed.safeguards-OverwritesIn w c)

  or_raise-OverwritesIn :
      {A : Type 0} (r : Result A) → Emits w (OverwritesIn (install_devices c)) (or_raise r)
  unfolding or_raise
  or_raise-OverwritesIn (ok a) = Emits-pure a
  or_raise-OverwritesIn (err e) = Emits-raise e

  files-OverwritesIn : Emits w (OverwritesIn (install_devices c)) install_utility_scripts
  unfolding install_utility_scripts install_script file_exists
  files-OverwritesIn = search (emits_rules, path_rules, tt) depth 40

  state-OverwritesIn : Emits w (OverwritesIn (install_devices c)) (write_expected_state c)
  unfolding write_expected_state write_file
  state-OverwritesIn = search (emits_rules, path_rules, tt) depth 40

  final-OverwritesIn :
      (dump : Value → String)
      → Emits w (OverwritesIn (install_devices c)) (write_final_config dump c)
  unfolding write_final_config write_file
  final-OverwritesIn dump = search (emits_rules, path_rules, tt) depth 40

  -- On every machine and for every configuration, whether it finishes or fails halfway, the whole
  -- installation overwrites no device but the target disk, its EFI and encrypted partitions, the
  -- opened volume, the USB boot drive and its first three partitions. Writing a file to a path below
  -- /dev/ counts too, and so does a LUKS header that is written to a device of its own.
  pub install-OverwritesIn :
      (dump : Value → String) → Emits w (OverwritesIn (install_devices c)) (install dump repr c)
  unfolding install
  install-OverwritesIn dump =
      Emits-bind (or_raise (enabled_steps repr c)) _ (or_raise-OverwritesIn _) λ steps.
        Emits-bind _ _ (Emits-for_each steps (run_step repr c) run_step-OverwritesIn) λ _.
          search (emits_rules, files-OverwritesIn, state-OverwritesIn, final-OverwritesIn) depth 30
