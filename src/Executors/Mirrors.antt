-- ===== src/Executors/Mirrors.antt =====
-- executors/mirrors.py: `PacmanMirrorsStepExecutor`.
use arch_installer.Prelude.{String, ◌<>◌, List, ◌∷◌, map, join, if◌then◌else◌}
use arch_installer.Core.Commands.{files}
use arch_installer.Core.Commands.Files
use arch_installer.Core.Exec.{Exec, Done, do_run}
use arch_installer.Config.Models.{InstallerConfig}
use arch_installer.Executors.Base.{write_file}

abbrev pub live_mirrorlist : String
live_mirrorlist = "/etc/pacman.d/mirrorlist"

unfoldable pub mirrorlist : List String → String
mirrorlist mirrors =
    join "\n"
      ("# generated by arch_installer from system.mirrors" ∷ map (λ m. "Server = " <> m) mirrors)
    <> "\n"

unfoldable pub execute : InstallerConfig → Exec Done
execute config =
    let mirrors = config.system.mirrors in
    if mirrors.use_reflector
    then do_run (files (Files.rank_mirrors (join "," mirrors.reflector_countries) live_mirrorlist))
    else write_file live_mirrorlist (mirrorlist mirrors.mirrors)
