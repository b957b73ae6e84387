-- ===== src/Cli/SecretCommands.antt =====
-- cli.py: the commands behind make encrypt-secrets and make decrypt-secrets.
pub mod Opened
use arch_installer.Prelude.{
  String, ◌<>◌, ◌==◌, true, false, ◌&&◌, Option, none, some, List, [], ◌∷◌, ◌++◌, if◌then◌else◌,
}
use arch_installer.Prelude.Dict
use arch_installer.Prelude.Dict.{Dict}
use arch_installer.Errors.{configuration_error, Result, ok, err, ◌>>=◌ as ◌then◌}
use arch_installer.Core.Secrets.{Bytes, encrypt_secret}
use arch_installer.Config.Value.{Value, text}
use arch_installer.Config.Models.Features.{EncryptedSecretsConfig}
use arch_installer.Config.Declared.{installer_config_section}
use arch_installer.Config.Environment.{switch_is_on}
use arch_installer.Config.File.{decrypted_credentials}
use arch_installer.Config.SecretsFile.{write_encrypted_secrets}
use arch_installer.Cli.Terminal.{Terminal, pure, or_raise, ◌>>=◌}
use arch_installer.Cli.Prompts.{required_secrets_key, secret_from_environment_or_prompt}
use arch_installer.Cli.Assembly.{Host, config_path, file_values}

-- the two results of `os.urandom` for the secret of the given name, salt and nonce
abbrev pub Randomness : Type 0
Randomness = String → Bytes × Bytes

unfoldable pub encrypt_if_given : Host → Randomness → String → String → String → Result String
encrypt_if_given host random password secrets_key secret_name =
    if password == ""
    then ok ""
    else encrypt_secret host.ciphers host.derive (random secret_name).0 (random secret_name).1
        password secrets_key secret_name

abbrev pub option_entry : String → Option Value → Dict Value
option_entry path none = []
option_entry path (some v) = (path, v) ∷ []

-- `new or stored.get(path)`, where None is no entry
abbrev pub merged_entry : String → String → Dict Value → Dict Value
merged_entry path new stored =
    if new == "" then option_entry path (Dict.lookup path stored) else (path, text new) ∷ []

unfoldable pub merged_secrets : EncryptedSecretsConfig → Dict Value → Dict Value
merged_secrets secrets stored =
    merged_entry "secrets.luks_password_encrypted" secrets.luks_password_encrypted stored
    ++ merged_entry "secrets.user_password_encrypted" secrets.user_password_encrypted stored

-- the handler of the errors of `decrypted_credentials`
abbrev pub opened_or_refused : Result (Dict String) → Result (Unit {0})
opened_or_refused (ok credentials) = ok tt
opened_or_refused (err (configuration_error problem)) = err (
    configuration_error (
      "A password kept from the config file does not open with this key (another key, "
      <> "or the old format); enter both passwords to encrypt them with this key"))
opened_or_refused (err e) = err e

unfoldable pub refuse_mixed_keys :
    Host → String → EncryptedSecretsConfig → String → Result (Unit {0})
unfolding merged_secrets
refuse_mixed_keys host path secrets secrets_key = file_values host path then λ stored.
    opened_or_refused
      (decrypted_credentials host.ciphers host.derive (merged_secrets secrets stored) secrets_key)

abbrev pub given_or_raise : String → String → Result (Unit {0})
given_or_raise luks_password user_password =
    if luks_password == "" && user_password == ""
    then err (configuration_error "No passwords provided (LUKS_PASSWORD and/or USER_PASSWORD)")
    else ok tt

abbrev pub or_na : String → String
or_na t = if t == "" then "N/A" else t

-- what a command prints, and how it goes on: with the path and the text of a file that is written, if
-- one is
pub record Printed : Type 0 where
  pub lines : List String
  pub rest : Result (Option (String × String))

-- the end of `_encrypt_secrets`, from the switch NO_WRITE
unfoldable pub store_secrets :
    Host → Dict String → EncryptedSecretsConfig → String → Result (Option (String × String))
unfolding refuse_mixed_keys
store_secrets host variables secrets secrets_key =
    switch_is_on host.repr variables "NO_WRITE" then λ no_write.
    let path = config_path host variables in
    if no_write
    then ok none
    else (refuse_mixed_keys host path secrets secrets_key then λ _.
        write_encrypted_secrets installer_config_section host.safe_load path (host.text_of path)
          secrets
        then λ written. ok (some (path, written)))

unfoldable pub encrypt_secrets : Host → Randomness → Dict String → Terminal Printed
unfolding encrypt_if_given store_secrets
encrypt_secrets host random variables = do
  secrets_key ← required_secrets_key variables true
  luks_password ←
      secret_from_environment_or_prompt variables "LUKS_PASSWORD"
        "LUKS password (Enter keeps the stored one)" true
  user_password ←
      secret_from_environment_or_prompt variables "USER_PASSWORD"
        "User password (Enter keeps the stored one)" true
  _ ← or_raise (given_or_raise luks_password user_password)
  luks ← or_raise (encrypt_if_given host random luks_password secrets_key "luks_password")
  user ← or_raise (encrypt_if_given host random user_password secrets_key "user_password")
  pure (record {
    lines =
        ("luks_password_encrypted: " <> or_na luks)
        ∷ ("user_password_encrypted: " <> or_na user)
        ∷ [];
    rest =
        store_secrets host variables
          (record { luks_password_encrypted = luks; user_password_encrypted = user }) secrets_key;
  })

abbrev pub credential_line : String → Option String → String
credential_line label none = label <> ": N/A"
credential_line label (some password) = label <> ": " <> password

unfoldable pub decrypt_secrets : Host → Dict String → Terminal (List String)
decrypt_secrets host variables = do
  secrets_key ← required_secrets_key variables false
  config_file_values ← or_raise (file_values host (config_path host variables))
  credentials ←
      or_raise (decrypted_credentials host.ciphers host.derive config_file_values secrets_key)
  pure (
      credential_line "LUKS" (Dict.lookup "credentials.luks_password" credentials)
      ∷ credential_line "User" (Dict.lookup "credentials.user_password" credentials)
      ∷ [])
