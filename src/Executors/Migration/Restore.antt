-- ===== src/Executors/Migration/Restore.antt =====
-- executors/migration.py: `MigrationRestoreStepExecutor`.
use arch_installer.Prelude.{String, ◌<>◌, List, [], ◌∷◌, if◌then◌else◌}
use arch_installer.Core.Commands.{probe, files}
use arch_installer.Core.Commands.Probes.{Probe}
use arch_installer.Core.Commands.Files
use arch_installer.Core.Exec.{Exec, Done, pure, do_run, do_attempt, for_each, ◌>>=◌, ◌>>◌}
use arch_installer.Config.Models.Features.{MigrationConfig}
use arch_installer.Config.Models.{InstallerConfig}
use arch_installer.Executors.Base.{directory_exists}
use arch_installer.Executors.Migration.Staging.{staging_directory, sbctl_directory}

abbrev pub staged_destinations : List (String × String)
staged_destinations =
    ("/tmp/migration-staging/home", "/mnt/home")
    ∷ ("/tmp/migration-staging/sbctl", "/mnt/var/lib/sbctl")
    ∷ ("/tmp/migration-staging/additional", "/mnt")
    ∷ []

unfoldable pub restore_directory : String × String → Exec Done
restore_directory (staged_directory, destination) = do
  staged ← directory_exists staged_directory
  if staged
      then (do
        do_run (files (Files.make_directory destination))
        do_run (files (Files.copy_archive (staged_directory <> "/.") (destination <> "/"))))
      else pure tt

-- what is found is only warned of
unfoldable pub report_restored_data : MigrationConfig → Exec Done
report_restored_data migration = do
  if migration.preserve_home then do_attempt (probe (Probe.list_entries "/mnt/home")) else pure tt
  if migration.preserve_secure_boot_keys
      then (directory_exists ("/mnt" <> sbctl_directory <> "/keys") >>= λ _. pure tt)
      else pure tt

unfoldable pub restore_staged : MigrationConfig → Exec Done
restore_staged migration = do
  for_each staged_destinations restore_directory
  report_restored_data migration
  do_run (files (Files.remove_tree staging_directory))

unfoldable pub execute : InstallerConfig → Exec Done
execute config = do
  staged ← directory_exists staging_directory
  if staged then restore_staged config.migration else pure tt
