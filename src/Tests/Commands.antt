-- ===== src/Tests/Commands.antt =====
-- cli.py and config/secrets_file.py, on a host whose config.yaml is an exported configuration.
use arch_installer.Prelude.{
  ◌≡◌, refl, ◌⊎◌, String, ◌==◌, some, none, List, [], ◌∷◌, false, strip, lower, any, ◌||◌, true,
  if◌then◌else◌,
}
use arch_installer.Prelude.Dict
use arch_installer.Prelude.Dict.{Dict}
use arch_installer.Errors.{ok}
use arch_installer.Core.Exec.{Event}
use arch_installer.Core.Exec.Devices.{OverwritesIn, IsReadOnly}
use arch_installer.Core.Exec.Added.{IsAdded}
use arch_installer.Config.Value.{Value}
use arch_installer.Config.File.{loaded}
use arch_installer.Config.Models.{InstallerConfig}
use arch_installer.Config.Exported.{exportable_config}
use arch_installer.Config.SecretsFile.{is_entry, is_section_line, set_lines}
use arch_installer.Config.SecretsFile.Edits.{set_lines-set_lines}
use arch_installer.Config.SecretsFile.Kept.{other_lines, set_lines-keeps_others}
use arch_installer.Install.Safety.{install_devices}
use arch_installer.Config.Environment.{raw, switch_is_on}
use arch_installer.Cli.{Ending}
use arch_installer.Cli.Readiness.{IsReady}
use arch_installer.Cli.Terminal.{Console, ended, typed}
use arch_installer.Cli.Assembly.{Host, is_interactive}
use arch_installer.Cli.Entries.{finished, prepare_install, main}
use arch_installer.Cli.Entries.Safety.{main-IsReady}
use arch_installer.Cli.Entries.Unattended.{main-unattended}
use arch_installer.Tests.Fixtures.{sample_config, quiet}
use arch_installer.Tests.Secrets.{sample_ciphers, limited}

abbrev no_repr : Value → String
no_repr v = ""

abbrev sample_host : Host
sample_host = record {
  repr = no_repr;
  str = no_repr;
  ciphers = sample_ciphers;
  derive = limited;
  text_of = λ path. if path == "/etc/config.yaml" then some "exported" else none;
  safe_load = λ t. loaded (exportable_config sample_config);
  safe_dump = no_repr;
  repository_config_path = "/etc/config.yaml";
}

abbrev sample_environment : Dict String
sample_environment =
    ("NON_INTERACTIVE", "true") ∷ ("LUKS_PASSWORD", "one") ∷ ("USER_PASSWORD", "two") ∷ []

abbrev nothing_typed : Console
nothing_typed = record { entries = []; presses = []; interrupts = false }

main-IsReady_example :
    IsAdded IsReadOnly [] (main sample_host sample_environment nothing_typed quiet []).1
    ⊎ ((c : InstallerConfig) × (asked : List Event) × (left : Console) × (prepare_install
            sample_host quiet sample_environment [] nothing_typed
          ≡ ended c asked left)
        × IsReady c
        × IsAdded IsReadOnly [] asked
        × IsAdded
            (OverwritesIn (install_devices c))
            asked
            (main sample_host sample_environment nothing_typed quiet []).1)
main-IsReady_example = main-IsReady sample_host quiet [] sample_environment nothing_typed

abbrev something_typed : Console
something_typed = record { entries = typed "one" ∷ []; presses = []; interrupts = false }

unattended : is_interactive sample_host sample_environment ≡ ok false
unfolding is_interactive switch_is_on raw Dict.lookup strip lower
unattended = refl

main-unattended_example :
    ((ending : Ending) × ((main sample_host sample_environment nothing_typed quiet []).0
        ≡ finished ending))
    × (main sample_host sample_environment nothing_typed quiet []
        ≡ main sample_host sample_environment something_typed quiet [])
main-unattended_example =
    main-unattended sample_host sample_environment unattended quiet [] nothing_typed something_typed

abbrev sample_lines : List String
sample_lines = "# mine" ∷ "secrets:  # encrypted" ∷ "storage:" ∷ "  target_disk: /dev/vda" ∷ "" ∷ []

edited :
    set_lines "luks_password_encrypted" "blob" sample_lines
    ≡ "# mine" ∷ "secrets:  # encrypted" ∷ "  luks_password_encrypted: 'blob'" ∷ "storage:"
      ∷ "  target_disk: /dev/vda" ∷ "" ∷ []
unfolding set_lines
edited = refl

set_lines-set_lines_example :
    set_lines "luks_password_encrypted" "new"
      (set_lines "luks_password_encrypted" "old" sample_lines)
    ≡ set_lines "luks_password_encrypted" "new" sample_lines
set_lines-set_lines_example =
    set_lines-set_lines "luks_password_encrypted" refl "old" "new" sample_lines

one_section :
    any (is_entry "luks_password_encrypted") sample_lines || any is_section_line sample_lines ≡ true
unfolding is_entry is_section_line
one_section = refl

set_lines-keeps_others_example :
    other_lines "luks_password_encrypted" refl
      (set_lines "luks_password_encrypted" "blob" sample_lines)
    ≡ other_lines "luks_password_encrypted" refl sample_lines
set_lines-keeps_others_example =
    set_lines-keeps_others "luks_password_encrypted" refl "blob" sample_lines one_section
