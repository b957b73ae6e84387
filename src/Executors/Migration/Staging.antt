-- ===== src/Executors/Migration/Staging.antt =====
-- executors/migration.py: `MigrationStagingStepExecutor`.
use arch_installer.Prelude.{
  String, ◌<>◌, ◌==◌, not, ◌&&◌, false, Option, none, some, List, [], ◌∷◌, map, keep, ℤ, pos, ◌+ℤ◌,
  ltb_ℤ, show_int, is_digits, parse_int, contains, strip, split_on, split_words, last_or, path_name,
  path_parent, strip_left_of, if◌then◌else◌,
}
use arch_installer.Errors.{migration_error}
use arch_installer.Core.Commands.{probe, disk, files}
use arch_installer.Core.Commands.Probes.{Probe}
use arch_installer.Core.Commands.Disks
use arch_installer.Core.Commands.Files
use arch_installer.Core.Exec.{
  Exec, Done, pure, raise, attempt, do_run, do_attempt, succeeds, success, run_with, for_each,
  finally, ◌>>=◌, ◌>>◌,
}
use arch_installer.Config.Models.{InstallerConfig}
use arch_installer.Executors.Base.{directory_exists, path_exists}

abbrev pub staging_directory : String
staging_directory = "/tmp/migration-staging"

abbrev pub old_mount_directory : String
old_mount_directory = "/tmp/old-system"

abbrev pub old_mapper_name : String
old_mapper_name = "oldcryptroot"

abbrev pub sbctl_directory : String
sbctl_directory = "/var/lib/sbctl"

abbrev pub sbctl_legacy_directory : String
sbctl_legacy_directory = "/usr/share/secureboot"

abbrev pub staging_headroom_mb : ℤ
staging_headroom_mb = pos 256

unfoldable pub path_in_old_root : String → String
path_in_old_root path = old_mount_directory <> "/@/" <> strip_left_of 47 path

pub record ExistingInstallInfo : Type 0 where
  pub disk_path : String
  pub root_partition : String
  pub home_subvolume : String
  pub home_size_mb : ℤ
  pub secure_boot_directory : String

-- the partitions in a listing of the disk's names
unfoldable pub listed_partitions : String → String → List String
listed_partitions disk_path listing =
    map (λ name. "/dev/" <> name)
      (keep (λ name. not (name == "") && not (name == path_name disk_path))
        (map strip (split_on 10 listing)))

unfoldable pub first_luks_partition : String → List String → Exec String
first_luks_partition disk_path [] =
    raise (migration_error ("No LUKS partition found on " <> disk_path <> ", nothing to migrate"))
first_luks_partition disk_path (partition ∷ partitions) = do
  is_luks ← succeeds (probe (Probe.is_luks partition))
  let rest = first_luks_partition disk_path partitions
  if is_luks then pure partition else rest

unfoldable pub find_luks_partition : String → Exec String
find_luks_partition disk_path = do
  listing ← attempt (probe (Probe.device_names disk_path))
  first_luks_partition disk_path (listed_partitions disk_path listing.stdout)

unfoldable pub unlock_old : InstallerConfig → String → Exec Done
unlock_old config partition = do
  unlocked ← run_with false (record {
    command = disk (Disks.luks_open none partition old_mapper_name);
    input = some config.credentials.source_luks_password;
  })
  if success unlocked
      then pure tt
      else raise (
          migration_error (
            "Could not unlock "
            <> partition
            <> " with the old LUKS password: "
            <> strip unlocked.stderr))

unfoldable pub mount_old : Exec Done
mount_old = do
  do_run (files (Files.make_directory old_mount_directory))
  mounted ←
      attempt
        (disk (Disks.mount "btrfs -o subvolid=5" "/dev/mapper/oldcryptroot" old_mount_directory))
  if success mounted then pure tt else (do
    do_attempt (disk (Disks.luks_close old_mapper_name))
    raise (migration_error ("Could not mount the existing system: " <> strip mounted.stderr)))

unfoldable pub open_and_mount : InstallerConfig → String → Exec Done
open_and_mount config partition = do unlock_old config partition; mount_old

unfoldable pub unmount_and_close : Exec Done
unmount_and_close = do
  do_attempt (disk (Disks.unmount old_mount_directory))
  do_attempt (disk (Disks.luks_close old_mapper_name))
  do_attempt (files (Files.remove_directory old_mount_directory))

unfoldable pub number_or_zero : Option ℤ → ℤ
number_or_zero none = pos 0
number_or_zero (some n) = n

-- `int(s) if s.isdigit() else 0`
unfoldable pub digits_or_zero : String → ℤ
unfolding number_or_zero
digits_or_zero s = if is_digits s then number_or_zero (parse_int s) else pos 0

unfoldable pub first_number : List String → ℤ
first_number [] = pos 0
first_number (word ∷ words) = digits_or_zero word

unfoldable pub size_mb : String → Exec ℤ
size_mb path = do
  du_output ← attempt (probe (Probe.disk_usage path))
  pure (first_number (split_words du_output.stdout))

unfoldable pub find_secure_boot_directory : Exec String
find_secure_boot_directory = do
  found ← directory_exists (path_in_old_root sbctl_directory <> "/keys")
  if found then pure (path_in_old_root sbctl_directory) else (do
    legacy ← directory_exists (path_in_old_root sbctl_legacy_directory <> "/keys")
    pure (if legacy then path_in_old_root sbctl_legacy_directory else ""))

unfoldable pub home_size : String → Exec ℤ
home_size home_subvolume =
    if home_subvolume == ""
    then pure (pos 0)
    else size_mb (old_mount_directory <> "/" <> home_subvolume)

unfoldable pub inspect_mounted_system : String → String → Exec ExistingInstallInfo
inspect_mounted_system disk_path root_partition = do
  subvolumes ← attempt (probe (Probe.list_subvolumes old_mount_directory))
  let home_subvolume = if contains "@home" subvolumes.stdout then "@home" else ""
  home_size_mb ← home_size home_subvolume
  secure_boot_directory ← find_secure_boot_directory
  pure (record {
    disk_path = disk_path;
    root_partition = root_partition;
    home_subvolume = home_subvolume;
    home_size_mb = home_size_mb;
    secure_boot_directory = secure_boot_directory;
  })

-- `for path in paths: required_mb += ...`
unfoldable pub add_sizes : ℤ → List String → Exec ℤ
add_sizes required_mb [] = pure required_mb
add_sizes required_mb (path ∷ paths) = do
  size ← size_mb (path_in_old_root path)
  add_sizes (required_mb +ℤ size) paths

unfoldable pub require_space : ℤ → ℤ → Exec Done
require_space required_mb available_mb =
    if ltb_ℤ available_mb required_mb
    then raise (
        migration_error (
          "Not enough space to stage the migration in /tmp: need ~"
          <> show_int required_mb
          <> "MB, "
          <> show_int available_mb
          <> "MB available"))
    else pure tt

unfoldable pub ensure_staging_space : InstallerConfig → ExistingInstallInfo → Exec Done
ensure_staging_space config existing = do
  let required_mb =
      (if config.migration.preserve_home
        then staging_headroom_mb +ℤ existing.home_size_mb
        else staging_headroom_mb)
  required_mb ← add_sizes required_mb config.migration.additional_paths
  df_output ← attempt (probe (Probe.free_space "/tmp"))
  require_space required_mb
      (digits_or_zero (strip (last_or "" (split_on 10 (strip df_output.stdout)))))

unfoldable pub copy_into_staging : String → String → Exec Done
copy_into_staging source_directory staging_name = do
  do_run (files (Files.make_directory (staging_directory <> "/" <> staging_name)))
  do_run (
      files (
        Files.copy_archive (source_directory <> "/.")
          (staging_directory <> "/" <> staging_name <> "/")))

unfoldable pub copy_additional : String → Exec Done
copy_additional path = do
  let source = path_in_old_root path
  let destination = staging_directory <> "/additional/" <> strip_left_of 47 path
  exists ← path_exists source
  if exists
      then (do
        do_run (files (Files.make_directory (path_parent destination)))
        do_run (files (Files.copy_archive source destination)))
      else pure tt

unfoldable pub copy_to_staging : InstallerConfig → ExistingInstallInfo → Exec Done
copy_to_staging config existing = do
  do_run (files (Files.remove_tree staging_directory))
  do_run (files (Files.make_directory staging_directory))
  if config.migration.preserve_home && not (existing.home_subvolume == "")
      then copy_into_staging (old_mount_directory <> "/" <> existing.home_subvolume) "home"
      else pure tt
  if config.migration.preserve_secure_boot_keys && not (existing.secure_boot_directory == "")
      then copy_into_staging existing.secure_boot_directory "sbctl"
      else pure tt
  for_each config.migration.additional_paths copy_additional

-- the body of the `try`
unfoldable pub stage : InstallerConfig → String → Exec Done
stage config luks_partition = do
  existing ← inspect_mounted_system config.storage.target_disk luks_partition
  ensure_staging_space config existing
  copy_to_staging config existing

unfoldable pub execute : InstallerConfig → Exec Done
execute config = do
  luks_partition ← find_luks_partition config.storage.target_disk
  open_and_mount config luks_partition
  finally (stage config luks_partition) unmount_and_close
