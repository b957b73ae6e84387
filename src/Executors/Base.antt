-- ===== src/Executors/Base.antt =====
-- executors/base.py: the shell helpers that the executors share. `/mnt` is `TARGET_ROOT`.
use arch_installer.Prelude.{
  String, ◌<>◌, ◌==◌, starts_with, strip, split_words, after_last, least, Bool, ◌||◌, List, [], ◌∷◌,
  keep, if◌then◌else◌,
}
use arch_installer.Errors.{runtime_error}
use arch_installer.Core.Commands.{probe, files}
use arch_installer.Core.Commands.Probes.{Probe}
use arch_installer.Core.Commands.Files.{write}
use arch_installer.Core.Exec.{Exec, Done, success, pure, raise, attempt, succeeds, feed, ◌>>=◌}

abbrev pub sbctl_pk_key : String
sbctl_pk_key = "/var/lib/sbctl/keys/PK/PK.key"

abbrev pub sbctl_db_key : String
sbctl_db_key = "/var/lib/sbctl/keys/db/db.key"

unfoldable pub is_mountpoint : String → Exec Bool
is_mountpoint path = succeeds (probe (Probe.mountpoint path))

unfoldable pub path_exists : String → Exec Bool
path_exists path = succeeds (probe (Probe.test_exists path))

unfoldable pub file_exists : String → Exec Bool
file_exists path = succeeds (probe (Probe.test_file path))

unfoldable pub directory_exists : String → Exec Bool
directory_exists path = succeeds (probe (Probe.test_directory path))

unfoldable pub write_file : String → String → Exec Done
write_file path content = feed (files (write path)) content

unfoldable pub detect_luks_uuid : String → Exec String
detect_luks_uuid luks_header_device = do
  result ← attempt (probe (Probe.luks_uuid luks_header_device))
  pure (if success result then strip result.stdout else "")

unfoldable pub partition_uuid : String → Exec String
partition_uuid partition = do
  result ← attempt (probe (Probe.partition_uuid partition))
  let uuid = strip result.stdout
  if uuid == ""
      then raise (runtime_error (partition <> " has no GPT partition UUID"))
      else pure uuid

is_unique_identifier : String → Bool
is_unique_identifier link =
    let name = after_last 47 link in starts_with name "wwn-" || starts_with name "nvme-eui."

-- `sorted(unique or links)[0] if links else ""`
choose_link : List String → List String → String
choose_link (first ∷ unique) links = least first unique
choose_link [] (first ∷ links) = least first links
choose_link [] [] = ""

unfoldable pub stable_disk_path : String → Exec String
unfolding is_unique_identifier choose_link
stable_disk_path disk = do
  result ← attempt (probe (Probe.disk_links disk))
  let links = split_words result.stdout
  pure (choose_link (keep is_unique_identifier links) links)
