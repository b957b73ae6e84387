-- ===== src/Cli/Assembly.antt =====
-- cli.py: the configuration that an entry point works on, from the environment, config.yaml and the
-- interactive setup.
use arch_installer.Prelude.{
  String, ◌<>◌, ◌==◌, join, map, Bool, true, false, not, ◌&&◌, ◌||◌, Option, none, some, List, [],
  ◌∷◌, if◌then◌else◌,
}
use arch_installer.Prelude.Dict
use arch_installer.Prelude.Dict.{Dict}
use arch_installer.Errors.{
  configuration_error, missing_settings_error, key_error, Result, ok, err, map_result,
  ◌>>=◌ as ◌then◌,
}
use arch_installer.Core.Secrets.{Ciphers, Derivation}
use arch_installer.Config.Value.{Value, text}
use arch_installer.Config.Models.{InstallerConfig}
use arch_installer.Config.Declared.{installer_config_section}
use arch_installer.Config.Environment.{raw, switch_is_on, setting_values}
use arch_installer.Config.File.{
  FileContent, Loaded, invalid, loaded, no_file, unparsable, parsed, read_config_file,
  config_file_setting_values, has_encrypted_credentials, decrypted_credentials,
}
use arch_installer.Config.Builder.{update}
use arch_installer.Config.Instances.Built.{build_installer_config}
use arch_installer.Config.ValuePrecedence.{
  SettingValue, inherit_setting_values, apply_tui_choices, plain_values,
}
use arch_installer.Install.Registry.{environment_variable_paths, variable_for_setting}
use arch_installer.Cli.Terminal.{Terminal, pure, or_raise, ◌>>=◌}
use arch_installer.Cli.Prompts.{ask_secret}

-- What the program finds around it: Python's `repr` and `str` of a value, the ciphers, the texts of the
-- files that exist, what PyYAML makes of a text, and the path of the repository's config.yaml.
pub record Host : Type 0 where
  pub repr : Value → String
  pub str : Value → String
  pub ciphers : Ciphers
  pub derive : Derivation
  pub text_of : String → Option String
  pub safe_load : String → Loaded
  pub safe_dump : Value → String
  pub repository_config_path : String

abbrev pub TuiSetup : Type 0
TuiSetup = Dict SettingValue → Terminal (Dict Value)

unfoldable pub is_interactive : Host → Dict String → Result Bool
is_interactive host variables = map_result not (switch_is_on host.repr variables "NON_INTERACTIVE")

unfoldable pub config_path : Host → Dict String → String
config_path host variables =
    if raw variables "CONFIG_PATH" == ""
    then host.repository_config_path
    else raw variables "CONFIG_PATH"

abbrev content_of_loaded : Loaded → FileContent
content_of_loaded (invalid problem) = unparsable problem
content_of_loaded (loaded value) = parsed value

abbrev content_of : Host → Option String → FileContent
content_of host none = no_file
content_of host (some t) = content_of_loaded (host.safe_load t)

-- `config_file_setting_values(read_config_file(path))`
unfoldable pub file_values : Host → String → Result (Dict Value)
file_values host path = read_config_file path (content_of host (host.text_of path)) then λ raw.
    config_file_setting_values installer_config_section raw

abbrev pub has_both_passwords : Dict Value → Bool
has_both_passwords values =
    Dict.has_key "credentials.luks_password" values
    && Dict.has_key "credentials.user_password" values

abbrev pub is_given : {A : Type 0} → Option A → Bool
is_given none = false
is_given (some a) = true

unfoldable pub unlocked_passwords :
    Host → Dict Value → Dict Value → Dict String → Option TuiSetup → Terminal (Dict String)
unlocked_passwords host config_file_values environment_values variables tui =
    if not (has_encrypted_credentials config_file_values) || has_both_passwords environment_values
    then pure []
    else (do
      let given = raw variables "ARCH_INSTALLER_SECRETS_KEY"
      secrets_key ←
          (if given == "" && is_given tui
            then ask_secret "Secrets decryption key" false
            else pure given)
      if secrets_key == ""
          then pure []
          else or_raise
              (decrypted_credentials host.ciphers host.derive config_file_values secrets_key))

abbrev pub alternative : Option String → String
alternative none = ""
alternative (some variable) = " or " <> variable

abbrev pub missing_line : String → String
missing_line setting_path =
    setting_path <> " (config.yaml" <> alternative (variable_for_setting setting_path) <> ")"

unfoldable pub explain_missing : List String → String
explain_missing setting_paths =
    "No source provides these settings:\n  - " <> join "\n  - " (map missing_line setting_paths)

-- the handler of `MissingSettingsError`
abbrev pub explained : {A : Type 0} → Result A → Result A
explained (ok a) = ok a
explained (err (missing_settings_error paths)) = err (configuration_error (explain_missing paths))
explained (err e) = err e

abbrev pub found_or_key_error : Option (Result (Dict Value)) → Result (Dict Value)
found_or_key_error none = err key_error
found_or_key_error (some r) = r

unfoldable pub final_values : Option TuiSetup → Dict SettingValue → Terminal (Dict SettingValue)
final_values none inherited = pure inherited
final_values (some tui) inherited = do
  choices ← tui inherited
  pure (apply_tui_choices inherited choices)

abbrev pub texts : Dict String → Dict Value
texts [] = []
texts ((k, t) ∷ d) = (k, text t) ∷ texts d

unfoldable pub assemble_installer_config :
    Host → Dict String → Option TuiSetup → Terminal InstallerConfig
unfolding file_values unlocked_passwords final_values
assemble_installer_config host variables tui = do
  environment_values ← or_raise (
      found_or_key_error
        (setting_values host.repr installer_config_section variables environment_variable_paths))
  config_file_values ← or_raise (file_values host (config_path host variables))
  unlocked ← unlocked_passwords host config_file_values environment_values variables tui
  final ←
      final_values tui
        (inherit_setting_values environment_values (update config_file_values (texts unlocked)))
  or_raise (explained (build_installer_config host.repr (plain_values final)))
