-- ===== src/Install/Installer.antt =====
-- installer.py: `Installer`. `repr` stands for Python's, of a text, and `safe_dump` for yaml's.
use arch_installer.Prelude.{String, ◌<>◌, List, [], ◌∷◌, if◌then◌else◌}
use arch_installer.Errors.{Result, ok, err, ◌>>=◌ as ◌then◌}
use arch_installer.Core.Commands.{files, chroot}
use arch_installer.Core.Commands.Files
use arch_installer.Core.Commands.Chroot
use arch_installer.Core.Exec.{Exec, Done, pure, raise, do_run, do_attempt, for_each, ◌>>=◌, ◌>>◌}
use arch_installer.Config.Value.{Value}
use arch_installer.Config.Models.{InstallerConfig}
use arch_installer.Config.Exported.{exportable_config}
use arch_installer.Executors.Base.{file_exists, write_file}
use arch_installer.Install.Steps.{InstallStep, run_order}
use arch_installer.Install.Wiring.{SettingLookup, config_lookup}
use arch_installer.Install.Registry.{wiring}
use arch_installer.Install.ExpectedState.{expected_state_path, expected_state_file}

abbrev pub utility_scripts : List (String × String)
utility_scripts =
    ("scripts/verify_install.sh", "verify-install")
    ∷ ("scripts/manage_snapshot_entries.sh", "manage-snapshot-ukis")
    ∷ ("scripts/dotfiles-sync.sh", "dotfiles-sync")
    ∷ []

unfoldable pub install_script : String × String → Exec Done
install_script (source, name) = do
  exists ← file_exists source
  if exists
      then do_run (files (Files.install_script source ("/mnt/usr/local/bin/" <> name)))
      else pure tt

unfoldable pub install_utility_scripts : Exec Done
install_utility_scripts = do
  do_run (files (Files.make_directory "/mnt/usr/local/bin"))
  for_each utility_scripts install_script

unfoldable pub write_expected_state : InstallerConfig → Exec Done
write_expected_state config = do
  do_run (files (Files.install_directory "/mnt/etc/dali"))
  write_file ("/mnt" <> expected_state_path) (expected_state_file config)
  do_run (files (Files.set_mode "644" ("/mnt" <> expected_state_path)))

-- a value computed before the commands, or its error
unfoldable pub or_raise : {A : Type 0} → Result A → Exec A
or_raise (ok a) = pure a
or_raise (err e) = raise e

module _ (repr : String → String) where
  unfoldable pub enabled_among : SettingLookup → List InstallStep → Result (List InstallStep)
  enabled_among value [] = ok []
  enabled_among value (step ∷ steps) = (wiring repr step).enabled value then λ enabled.
      enabled_among value steps then λ rest. ok (if enabled then step ∷ rest else rest)

  unfoldable pub enabled_steps : InstallerConfig → Result (List InstallStep)
  unfolding enabled_among
  enabled_steps config = enabled_among (config_lookup config) run_order

  unfoldable pub run_step : InstallerConfig → InstallStep → Exec Done
  run_step config step = (wiring repr step).executor config

module _ (safe_dump : Value → String) where
  unfoldable pub write_final_config : InstallerConfig → Exec Done
  write_final_config config = do
    let username = config.system.user.name
    do_attempt (files (Files.make_directory ("/mnt/home/" <> username)))
    write_file ("/mnt/home/" <> username <> "/final_config.yaml")
        (safe_dump (exportable_config config))
    do_attempt (
        chroot (
          Chroot.change_owner (username <> ":" <> username)
            ("/home/" <> username <> "/final_config.yaml")))

  unfoldable pub install : (String → String) → InstallerConfig → Exec Done
  install repr config = do
    steps ← or_raise (enabled_steps repr config)
    for_each steps (run_step repr config)
    install_utility_scripts
    write_expected_state config
    write_final_config config
