-- ===== src/Executors/Docker.antt =====
-- executors/docker.py: `DockerStepExecutor`.
use Prim.Native.Char.{Char, code}
use arch_installer.Prelude.{
  String, ◌<>◌, not, List, [], ◌∷◌, ◌-◌, ◌+◌, ◌/◌, ◌%◌, ◌&&◌, leb, ltb, eqb, hex4, member, keep,
  distinct, sort_texts, if◌then◌else◌,
}
use arch_installer.Core.Commands.{chroot, files}
use arch_installer.Core.Commands.Chroot
use arch_installer.Core.Commands.Files
use arch_installer.Core.Exec.{Exec, Done, pure, do_run, do_attempt, succeeds, for_each, ◌>>=◌, ◌>>◌}
use arch_installer.Config.Models.Features.{DockerConfig}
use arch_installer.Config.Models.{InstallerConfig}
use arch_installer.Executors.Base.{write_file}
use arch_installer.Executors.System.{user_groups}

abbrev pub docker_group : String
docker_group = "docker"

-- one character of a JSON string, in ASCII; beyond 16 bits as a pair of surrogates
unfoldable pub json_char : Char → String
json_char c =
    let n = code c in
    if eqb n 34
    then "\\\""
    else if eqb n 92
    then "\\\\"
    else if eqb n 10
    then "\\n"
    else if eqb n 13
    then "\\r"
    else if eqb n 9
    then "\\t"
    else if eqb n 12
    then "\\f"
    else if eqb n 8
    then "\\b"
    else if leb 32 n && leb n 126
    then String.◌∷◌ c ""
    else if ltb n 0x10000
    then "\\u" <> hex4 n
    else "\\u"
      <> (hex4 (0xd800 + (n - 0x10000) / 1024) <> ("\\u" <> hex4 (0xdc00 + (n - 0x10000) % 1024)))

unfoldable pub json_content : String → String
unfolding json_char
json_content String.[] = ""
json_content (String.◌∷◌ c s) = json_char c <> json_content s

-- `json.dumps` of a text
unfoldable pub json_text : String → String
json_text s = "\"" <> (json_content s <> "\"")

unfoldable pub daemon_json : String → String → String
daemon_json storage_driver data_root =
    "{\n    \"storage-driver\": "
    <> json_text storage_driver
    <> ",\n    \"data-root\": "
    <> json_text data_root
    <> "\n}\n"

unfoldable pub access_group_sudoers : String → String
access_group_sudoers access_group =
    "# allow " <> access_group <> " group to run docker without password\n%" <> access_group
    <> " ALL=(ALL) NOPASSWD: /usr/bin/docker, /usr/bin/docker-compose\n"

-- `sorted({DOCKER_GROUP, docker.access_group} - user_groups(...))`
unfoldable pub missing_groups : String → List String → List String
missing_groups access_group groups =
    sort_texts (keep (λ g. not (member g groups)) (distinct (docker_group ∷ access_group ∷ [])))

unfoldable pub configure_daemon : DockerConfig → Exec Done
configure_daemon docker = do
  do_run (files (Files.make_directory "/mnt/etc/docker"))
  write_file "/mnt/etc/docker/daemon.json" (daemon_json docker.storage_driver docker.data_root)
  do_attempt (chroot (Chroot.enable_unit "docker.service"))

unfoldable pub grant_access : DockerConfig → String → Exec Done
grant_access docker username = do
  exists ← succeeds (chroot (Chroot.find_group docker.access_group))
  if exists then pure tt else do_run (chroot (Chroot.add_group docker.access_group))
  groups ← user_groups username
  for_each (missing_groups docker.access_group groups)
      (λ group. do_run (chroot (Chroot.join_group group username)))
  let sudoers_file = "/mnt/etc/sudoers.d/" <> docker.access_group
  write_file sudoers_file (access_group_sudoers docker.access_group)
  do_run (files (Files.set_mode "440" sudoers_file))

unfoldable pub execute : InstallerConfig → Exec Done
execute config = do
  installed ← succeeds (chroot (Chroot.query_package "docker"))
  if installed
      then (do configure_daemon config.docker; grant_access config.docker config.system.user.name)
      else pure tt
