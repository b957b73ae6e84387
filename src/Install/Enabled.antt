-- ===== src/Install/Enabled.antt =====
-- installer.py: which steps run, in terms of the fields of the configuration.
use arch_installer.Prelude.{
  ◌≡◌, refl, ap, String, Bool, true, false, not, ◌&&◌, ◌||◌, List, [], ◌∷◌, keep, if◌then◌else◌,
}
use arch_installer.Errors.{ok}
use arch_installer.Config.Models.Enums.{GpuVendor, GpuDriver, is_proprietary_nvidia}
use arch_installer.Config.Models.System.{uses_proprietary_nvidia_driver}
use arch_installer.Config.Models.{InstallerConfig}
use arch_installer.Install.Steps.{InstallStep, run_order}
use arch_installer.Install.Wiring.{config_lookup, get_path, when, always}
use arch_installer.Install.Registry.{wiring}
use arch_installer.Prelude.{split_on}
use arch_installer.Config.Value.{get_field, text, tuple, truthy, py_eq}
use arch_installer.Config.AsDict.{installer_config_dict}
use arch_installer.Config.AsDict.Members.{items_of, gpu_vendor_value, gpu_driver_value}
use arch_installer.Config.AsDict.System.{
  system_config_dict, pacman_mirror_config_dict, gpu_config_dict,
}
use arch_installer.Install.Conditions.{
  either, both, mirrors_declared, uses_proprietary_nvidia_driver as proprietary_wanted,
  recovery_system_wanted, snapshot_notifications_wanted,
}
use arch_installer.Install.Installer.{enabled_among, enabled_steps}

abbrev is_nonempty : List String → Bool
is_nonempty [] = false
is_nonempty (x ∷ xs) = true

-- What decides on each step.
abbrev pub is_wanted : InstallerConfig → InstallStep → Bool
is_wanted c InstallStep.migration_staging = c.migration.enabled
is_wanted c InstallStep.usb_boot_drive = c.usb_boot.enabled
is_wanted c InstallStep.storage = true
is_wanted c InstallStep.pacman_mirrors =
    c.system.mirrors.use_reflector || is_nonempty c.system.mirrors.mirrors
is_wanted c InstallStep.packages = true
is_wanted c InstallStep.migration_restore = c.migration.enabled
is_wanted c InstallStep.system = true
is_wanted c InstallStep.docker = c.docker.enabled
is_wanted c InstallStep.gpu_driver = uses_proprietary_nvidia_driver c.gpu
is_wanted c InstallStep.kernel_images = true
is_wanted c InstallStep.bootloader = true
is_wanted c InstallStep.recovery_system = c.usb_boot.enabled && c.usb_boot.recovery_system
is_wanted c InstallStep.snapper = c.snapper.enabled
is_wanted c InstallStep.bootable_snapshots = c.boot.enable_snapshot_boot
is_wanted c InstallStep.snapshot_notifications = c.notifications.enabled && c.snapper.enabled
is_wanted c InstallStep.firewall = c.firewall.enabled
is_wanted c InstallStep.usb_boot_safeguards = c.usb_boot.enabled

either_lem :
    (used : Bool) (mirrors : List String)
    → either used (ok (truthy (tuple (items_of text mirrors)))) ≡ ok (used || is_nonempty mirrors)
unfolding either items_of
either_lem true mirrors = refl
either_lem false [] = refl
either_lem false (mirror ∷ mirrors) = refl

kept_lem :
    (b : Bool) (step : InstallStep) (rest : List InstallStep)
    → (if b then step ∷ rest else rest) ≡ elim b [ true ↦ step ∷ rest | false ↦ rest ]
kept_lem true step rest = refl
kept_lem false step rest = refl

both_lem : (a b : Bool) → both a (ok b) ≡ ok (a && b)
unfolding both
both_lem true b = refl
both_lem false b = refl

proprietary_lem :
    (vendor : GpuVendor) (driver : GpuDriver)
    → (py_eq (gpu_vendor_value vendor) (text "nvidia")
        && not (py_eq (gpu_driver_value driver) (text "nouveau")))
      ≡ is_proprietary_nvidia vendor driver
unfolding py_eq is_proprietary_nvidia
proprietary_lem GpuVendor.amd driver = refl
proprietary_lem GpuVendor.intel driver = refl
proprietary_lem GpuVendor.none driver = refl
proprietary_lem GpuVendor.nvidia GpuDriver.nouveau = refl
proprietary_lem GpuVendor.nvidia GpuDriver.nvidia_open = refl
proprietary_lem GpuVendor.nvidia GpuDriver.nvidia_dkms = refl
proprietary_lem GpuVendor.nvidia GpuDriver.vendor_default = refl

module _ (repr : String → String) (c : InstallerConfig) where
  enabled_lem :
      (step : InstallStep) → (wiring repr step).enabled (config_lookup c) ≡ ok (is_wanted c step)
  unfolding wiring config_lookup when split_on installer_config_dict get_field always
      mirrors_declared proprietary_wanted recovery_system_wanted snapshot_notifications_wanted
      get_path uses_proprietary_nvidia_driver system_config_dict pacman_mirror_config_dict
      gpu_config_dict
  enabled_lem InstallStep.migration_staging = refl
  enabled_lem InstallStep.usb_boot_drive = refl
  enabled_lem InstallStep.storage = refl
  enabled_lem InstallStep.pacman_mirrors =
      either_lem c.system.mirrors.use_reflector c.system.mirrors.mirrors
  enabled_lem InstallStep.packages = refl
  enabled_lem InstallStep.migration_restore = refl
  enabled_lem InstallStep.system = refl
  enabled_lem InstallStep.docker = refl
  enabled_lem InstallStep.gpu_driver = ap ok (proprietary_lem c.gpu.vendor c.gpu.driver)
  enabled_lem InstallStep.kernel_images = refl
  enabled_lem InstallStep.bootloader = refl
  enabled_lem InstallStep.recovery_system = both_lem c.usb_boot.enabled c.usb_boot.recovery_system
  enabled_lem InstallStep.snapper = refl
  enabled_lem InstallStep.bootable_snapshots = refl
  enabled_lem InstallStep.snapshot_notifications =
      both_lem c.notifications.enabled c.snapper.enabled
  enabled_lem InstallStep.firewall = refl
  enabled_lem InstallStep.usb_boot_safeguards = refl

  among_lem :
      (steps : List InstallStep)
      → enabled_among repr (config_lookup c) steps ≡ ok (keep (is_wanted c) steps)
  unfolding enabled_among
  among_lem [] = refl
  among_lem (step ∷ steps) =
      rw (enabled_lem step) (rw (among_lem steps) (ap ok (kept_lem (is_wanted c step) step _)))

  -- The enabled steps are, in run order, exactly those that the configuration wants: storage,
  -- packages, system, kernel images and boot loader always, each other one by its own switches; no
  -- condition looks up a setting that does not exist.
  pub enabled_steps-wanted : enabled_steps repr c ≡ ok (keep (is_wanted c) run_order)
  unfolding enabled_steps
  enabled_steps-wanted = among_lem run_order
