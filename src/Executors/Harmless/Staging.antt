-- ===== src/Executors/Harmless/Staging.antt =====
-- executors/migration.py: the staging of an old install overwrites no device.
use arch_installer.Prelude.{String, List, [], ◌∷◌, ℤ}
use arch_installer.Core.Commands.{probe}
use arch_installer.Core.Commands.Probes.{Probe}
use arch_installer.Core.Exec.{Machine, succeeds}
use arch_installer.Core.Exec.Emits.{Emits, emits_rules, Emits-bind, Emits-if}
use arch_installer.Core.Exec.Devices.{OverwritesIn, path_rules}
use arch_installer.Config.Models.{InstallerConfig}
use arch_installer.Executors.Base.{directory_exists, path_exists}
use arch_installer.Executors.Migration.Staging
use arch_installer.Executors.Migration.Staging.{
  ExistingInstallInfo, first_luks_partition, find_luks_partition, unlock_old, mount_old,
  open_and_mount, unmount_and_close, size_mb, find_secure_boot_directory, home_size,
  inspect_mounted_system, add_sizes, require_space, ensure_staging_space, copy_into_staging,
  copy_additional, copy_to_staging, stage, path_in_old_root,
}

ruleset harmless_rules = (emits_rules, path_rules, tt)

module _ (w : Machine) where
  first_luks-OverwritesIn :
      (d : String) (ps : List String) → Emits w (OverwritesIn []) (first_luks_partition d ps)
  unfolding first_luks_partition
  first_luks-OverwritesIn d [] = search harmless_rules
  first_luks-OverwritesIn d (p ∷ ps) =
      Emits-bind (succeeds (probe (Probe.is_luks p))) _ (search harmless_rules depth 30)
        λ found. Emits-if found _ _ (search harmless_rules) (first_luks-OverwritesIn d ps)

  size-OverwritesIn : (p : String) → Emits w (OverwritesIn []) (size_mb p)
  unfolding size_mb
  size-OverwritesIn p = search harmless_rules depth 30

  add_sizes-OverwritesIn : (ps : List String) (n : ℤ) → Emits w (OverwritesIn []) (add_sizes n ps)
  unfolding add_sizes
  add_sizes-OverwritesIn [] n = search harmless_rules
  add_sizes-OverwritesIn (p ∷ ps) n =
      Emits-bind (size_mb (path_in_old_root p)) _ (size-OverwritesIn _)
        λ size. add_sizes-OverwritesIn ps _

  open-OverwritesIn :
      (config : InstallerConfig) (p : String) → Emits w (OverwritesIn []) (open_and_mount config p)
  unfolding open_and_mount unlock_old mount_old
  open-OverwritesIn config p = search harmless_rules depth 60

  inspect-OverwritesIn : (d p : String) → Emits w (OverwritesIn []) (inspect_mounted_system d p)
  unfolding inspect_mounted_system home_size find_secure_boot_directory directory_exists
  inspect-OverwritesIn d p = search (harmless_rules, size-OverwritesIn) depth 60

  space-OverwritesIn :
      (config : InstallerConfig) (e : ExistingInstallInfo)
      → Emits w (OverwritesIn []) (ensure_staging_space config e)
  unfolding ensure_staging_space require_space
  space-OverwritesIn config e = search (harmless_rules, add_sizes-OverwritesIn) depth 60

  copy-OverwritesIn :
      (config : InstallerConfig) (e : ExistingInstallInfo)
      → Emits w (OverwritesIn []) (copy_to_staging config e)
  unfolding copy_to_staging copy_into_staging copy_additional path_exists
  copy-OverwritesIn config e = search harmless_rules depth 60

  pub staging-OverwritesIn :
      (config : InstallerConfig) → Emits w (OverwritesIn []) (Staging.execute config)
  unfolding Staging.execute find_luks_partition stage unmount_and_close
  staging-OverwritesIn config =
      search
        (
          harmless_rules, first_luks-OverwritesIn, open-OverwritesIn, inspect-OverwritesIn,
          space-OverwritesIn, copy-OverwritesIn,
        )
        depth 60
