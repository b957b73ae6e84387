-- ===== src/Tests/Install.antt =====
-- A whole installation, the staging of a migration, a backup and the exported configuration at
-- concrete inputs.
use arch_installer.Prelude.{
  ◌≡◌, refl, some, none, ◌==◌, if◌then◌else◌, String, true, List, [], ◌∷◌, ◌++◌, All, keep,
}
use arch_installer.Errors.{ok, err, ◌>>=◌, migration_error}
use arch_installer.Core.Exec.{Event}
use arch_installer.Core.Exec.Emits.{Emits}
use arch_installer.Core.Exec.Devices.{OverwritesIn}
use arch_installer.Config.Value.{Value, null}
use arch_installer.Config.Models.{InstallerConfig}
use arch_installer.Config.Builder.{build, update}
use arch_installer.Config.Declared.{installer_config_section}
use arch_installer.Config.AsDict.{installer_config_dict}
use arch_installer.Config.Exported.{exportable_config}
use arch_installer.Config.Exported.RoundTrip.{put_back, exportable_config-read_back}
use arch_installer.Config.File.{loaded}
use arch_installer.Cli.Assembly.{Host, file_values}
use arch_installer.Tests.Secrets.{sample_ciphers, limited}
use arch_installer.Executors.Migration.Staging
use arch_installer.Executors.UsbBackup
use arch_installer.Executors.UsbBackup.Unmounted.{IsUnmounted, execute-IsUnmounted}
use arch_installer.Executors.Migration.Cleanup.{IsClosed, execute-IsClosed}
use arch_installer.Core.Exec.Leads.{Leads}
use arch_installer.Install.Steps.{InstallStep, run_order}
use arch_installer.Install.ExpectedState.{expected_state_file, expected_state_values}
use arch_installer.Install.ExpectedState.Shell.{sourced}
use arch_installer.Install.ExpectedState.Sourced.{texts_of, sourced-expected_state_file}
use arch_installer.Install.Installer.{install, enabled_steps}
use arch_installer.Install.Enabled.{is_wanted, enabled_steps-wanted}
use arch_installer.Install.Safety.{install_devices, install-OverwritesIn}
use arch_installer.Install.Failure.{install-staging_fails}
use arch_installer.Tests.Fixtures.{sample_config, migrating_config, quiet, installed}

abbrev same : String → String
same s = s

abbrev no_text : Value → String
no_text v = ""

-- a host whose only YAML text is that of the sample configuration
abbrev exporting_host : Host
exporting_host = record {
  repr = no_text;
  str = no_text;
  ciphers = sample_ciphers;
  derive = limited;
  text_of = λ path. if path == "/mnt/final_config.yaml" then some "exported" else none;
  safe_load =
      λ t. if t == "exported" then loaded (exportable_config sample_config) else loaded null;
  safe_dump = λ v. "exported";
  repository_config_path = "/etc/config.yaml";
}

exportable_config-read_back_example :
    (file_values exporting_host "/mnt/final_config.yaml" >>= λ values.
    build no_text installer_config_section (update values (put_back sample_config)))
    ≡ ok (installer_config_dict sample_config)
exportable_config-read_back_example =
    exportable_config-read_back exporting_host "/mnt/final_config.yaml" sample_config refl refl

enabled_steps-wanted_example :
    enabled_steps same sample_config ≡ ok (keep (is_wanted sample_config) run_order)
enabled_steps-wanted_example = enabled_steps-wanted same sample_config

sample_steps :
    keep (is_wanted sample_config) run_order
    ≡ InstallStep.storage ∷ InstallStep.pacman_mirrors ∷ InstallStep.packages ∷ InstallStep.system
      ∷ InstallStep.docker ∷ InstallStep.gpu_driver ∷ InstallStep.kernel_images
      ∷ InstallStep.bootloader ∷ InstallStep.snapper ∷ InstallStep.bootable_snapshots
      ∷ InstallStep.snapshot_notifications ∷ InstallStep.firewall ∷ []
unfolding arch_installer.Config.Models.System.uses_proprietary_nvidia_driver
sample_steps = refl

install-OverwritesIn_example :
    Emits quiet (OverwritesIn (install_devices sample_config)) (install no_text same sample_config)
install-OverwritesIn_example = install-OverwritesIn quiet same sample_config no_text

-- the machine lists no partition
staging_error :
    (Staging.execute migrating_config quiet []).0
    ≡ err (migration_error "No LUKS partition found on /dev/vda, nothing to migrate")
unfolding Staging.execute arch_installer.Core.Exec.◌>>=◌ Staging.find_luks_partition
    arch_installer.Core.Exec.run_with Staging.first_luks_partition Staging.listed_partitions
    arch_installer.Prelude.split_on arch_installer.Prelude.strip
staging_error = refl

install-staging_fails_example :
    ((install no_text same migrating_config quiet []).0
      ≡ err (migration_error "No LUKS partition found on /dev/vda, nothing to migrate"))
    × ((new : List Event) × ((install no_text same migrating_config quiet []).1 ≡ new ++ [])
        × All (OverwritesIn []) new)
install-staging_fails_example =
    install-staging_fails quiet same no_text migrating_config [] _ refl staging_error

-- every command succeeds, and a partition is listed
execute-IsClosed_example :
    Leads installed
      (IsClosed installed)
      (Staging.execute migrating_config)
      (λ _. IsClosed installed)
      (IsClosed installed)
execute-IsClosed_example = execute-IsClosed (λ tr i. (_, _, _, refl)) (λ tr. refl) migrating_config

execute-IsUnmounted_example :
    Leads installed
      (IsUnmounted installed)
      (UsbBackup.execute no_text sample_config)
      (λ _. IsUnmounted installed)
      (IsUnmounted installed)
execute-IsUnmounted_example = execute-IsUnmounted installed no_text sample_config

sourced-expected_state_file_example :
    sourced (expected_state_file sample_config)
    ≡ some (texts_of (expected_state_values sample_config))
sourced-expected_state_file_example = sourced-expected_state_file sample_config
