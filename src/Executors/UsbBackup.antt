-- ===== src/Executors/UsbBackup.antt =====
-- executors/usb_backup.py: `UsbBackupStepExecutor`, a tool of its own. `yaml.safe_dump` is a parameter.
pub mod Items
pub mod Unmounted
use arch_installer.Prelude.{
  String, ◌<>◌, ◌==◌, starts_with, strip, split_words, Bool, true, false, not, List, [], ◌∷◌, ◌++◌,
  map, ℕ, suc, pos, if◌then◌else◌,
}
use arch_installer.Errors.{configuration_error}
use arch_installer.Core.Commands.{Command, probe, disk, files}
use arch_installer.Core.Commands.Probes.{Probe}
use arch_installer.Core.Commands.Disks
use arch_installer.Core.Commands.Files
use arch_installer.Core.Exec.{
  Exec, Done, success, pure, raise, attempt, do_run, do_attempt, finally, ◌>>=◌, ◌>>◌,
}
use arch_installer.Config.Value.{Value, int, text, list, dict, end, field}
use arch_installer.Config.Models.Enums.{BackupCategory, backup_category_text}
use arch_installer.Config.Models.Features.{BackupItemConfig}
use arch_installer.Config.Models.{InstallerConfig}
use arch_installer.Config.AsDict.Members.{items_of}
use arch_installer.Config.Exported.{exportable_config}
use arch_installer.Executors.Base.{directory_exists, is_mountpoint, path_exists, write_file}
use arch_installer.Executors.UsbBackup.Items.{backup_items}

abbrev pub backup_mount : String
backup_mount = "/mnt/usb-backup"

drop_first : String → String
drop_first String.[] = ""
drop_first (String.◌∷◌ c s) = s

unfoldable pub expand_home : InstallerConfig → String → String
unfolding drop_first
expand_home config path =
    if starts_with path "~" then "/home/" <> config.system.user.name <> drop_first path else path

unfoldable pub copy_item : String → String → Exec Bool
copy_item source destination = do
  exists ← path_exists source
  is_directory ← (if exists then directory_exists source else pure false)
  if not exists
      then pure false
      else if is_directory
      then (do
        do_run (files (Files.make_directory destination))
        do_run (files (Files.sync_directory source destination))
        pure true)
      else (do do_run (files (Files.copy_archive source destination)); pure true)

-- the items of one group, and the names of those that were there
unfoldable pub copy_group : InstallerConfig → String → List BackupItemConfig → Exec (List String)
copy_group config group_directory [] = pure []
copy_group config group_directory (item ∷ items) = do
  copied ←
      copy_item (expand_home config item.source_path)
        (backup_mount <> "/" <> group_directory <> "/" <> item.name)
  copied_items ← copy_group config group_directory items
  pure (if copied then (group_directory <> "/" <> item.name) ∷ copied_items else copied_items)

unfoldable pub copy_groups :
    InstallerConfig → List (String × List BackupItemConfig) → Exec (List String)
copy_groups config [] = pure []
copy_groups config ((group_directory, items) ∷ groups) = do
  do_run (files (Files.make_directory (backup_mount <> "/" <> group_directory)))
  copied ← copy_group config group_directory items
  copied_later ← copy_groups config groups
  pure (copied ++ copied_later)

unfoldable pub custom_group : List BackupItemConfig → List (String × List BackupItemConfig)
custom_group [] = []
custom_group (item ∷ items) = ("custom", item ∷ items) ∷ []

unfoldable pub copy_items : InstallerConfig → Exec (List String)
copy_items config = copy_groups config (
    map (λ category. (backup_category_text category, backup_items category))
      config.sync.backup_categories
    ++ custom_group config.sync.backup_items)

unfoldable pub explicitly_installed_packages : Exec (List String)
explicitly_installed_packages = do
  result ← attempt (probe Probe.installed_packages)
  pure (if success result then split_words result.stdout else [])

unfoldable pub command_output : Command → Exec String
command_output command = do
  result ← attempt command
  pure (if success result then strip result.stdout else "unknown")

abbrev pub count_texts : List String → ℕ
count_texts [] = 0
count_texts (x ∷ xs) = suc (count_texts xs)

module _ (safe_dump : Value → String) where
  unfoldable pub package_catalog : List String → String
  package_catalog package_names =
      "# explicitly installed packages of the backed up system\n"
      <> safe_dump (
          dict (
            field "packages" (dict (field "cataloged" (list (items_of text package_names)) end))
              end))

  unfoldable pub write_config_exports : InstallerConfig → List String → Exec Done
  write_config_exports config package_names = do
    do_run (files (Files.make_directory "/mnt/usb-backup/config"))
    write_file "/mnt/usb-backup/config/package_catalog.yaml" (package_catalog package_names)
    write_file "/mnt/usb-backup/config/config.yaml" (safe_dump (exportable_config config))

  unfoldable pub manifest_text :
      InstallerConfig → List String → List String → String → String → String
  manifest_text config items_backed_up package_names timestamp hostname = safe_dump (
      dict (
        field "timestamp" (text timestamp) (
          field "hostname" (text hostname) (
            field "categories"
              (list (items_of text (map backup_category_text config.sync.backup_categories)))
              (field "package_count" (int (pos (count_texts package_names)))
                (field "items_backed_up" (list (items_of text items_backed_up)) end))))))

  -- the body of the `try`
  unfoldable pub back_up : InstallerConfig → Exec Done
  back_up config = do
    items_backed_up ← copy_items config
    package_names ← explicitly_installed_packages
    write_config_exports config package_names
    timestamp ← command_output (probe Probe.current_date)
    hostname ← command_output (probe Probe.host_name)
    write_file "/mnt/usb-backup/manifest.yaml"
        (manifest_text config items_backed_up package_names timestamp hostname)

  unfoldable pub require_partition : String → Exec Done
  require_partition partition = do
    exists ← (if partition == "" then pure false else path_exists partition)
    if partition == ""
        then raise (
            configuration_error
              "No partition to back up to (BACKUP_PARTITION or sync.backup_partition)")
        else if exists
        then pure tt
        else raise (configuration_error ("Backup partition " <> partition <> " does not exist"))

  unfoldable pub mount_partition : String → Exec Done
  mount_partition partition = do
    do_run (files (Files.make_directory backup_mount))
    mounted ← is_mountpoint backup_mount
    if mounted then pure tt else do_run (disk (Disks.mount_plain partition backup_mount))

  unfoldable pub execute : InstallerConfig → Exec Done
  execute config = do
    require_partition config.sync.backup_partition
    mount_partition config.sync.backup_partition
    finally (back_up config) (do_attempt (disk (Disks.unmount backup_mount)))
