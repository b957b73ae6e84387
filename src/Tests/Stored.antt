-- ===== src/Tests/Stored.antt =====
-- cli.py: encrypt-secrets on a host with both secrets, and what reading its file gives.
use arch_installer.Prelude.{
  join, show_nat, ◌<>◌, ◌≡◌, refl, ◌==◌, some, [], ◌∷◌, ◌++◌, leb, if◌then◌else◌, arith, ◌≤◌, ℕ,
  zero, suc, true, eqb, String, ap, length, length-append, ◌+◌,
}
use arch_installer.Errors.{Result, ok, err, ◌>>=◌}
use arch_installer.Config.Value.{text, dict, field, end}
use arch_installer.Config.File.{loaded, decrypted_credentials}
use arch_installer.Config.Models.Features.{EncryptedSecretsConfig}
use arch_installer.Cli.SecretCommands.Opened.{store_secrets-decrypted_credentials}
use arch_installer.Cli.Assembly.{Host, file_values, config_path}
use arch_installer.Cli.SecretCommands.{Randomness, encrypt_if_given, store_secrets}
use arch_installer.Core.Secrets.{
  encoded, Bytes, Ciphers, Derivation, decrypt_secret, encrypt_secret, aes_key, new_secret_cost,
  drop,
}
use arch_installer.Tests.Secrets.{
  four_bytes, sixteen_bytes, limited, lawful_ciphers, lawful_ciphers-AreLawful, unary, units,
  counted, bump,
}

abbrev blob_of : Result String → String
blob_of (ok b) = b
blob_of (err e) = ""

abbrev sample_blob : String → String
unfolding encrypt_secret join units encoded show_nat
sample_blob name = blob_of (
    encrypt_secret lawful_ciphers limited sixteen_bytes (four_bytes ++ four_bytes ++ four_bytes)
      "secret" "key" name)

abbrev sample_secrets : EncryptedSecretsConfig
sample_secrets = record {
  luks_password_encrypted = sample_blob "luks_password";
  user_password_encrypted = sample_blob "user_password";
}

-- a host on which every text loads as the two secrets
abbrev secrets_host : Host
secrets_host = record {
  repr = λ v. "";
  str = λ v. "";
  ciphers = lawful_ciphers;
  derive = limited;
  text_of = λ path. some "secrets:";
  safe_load = λ t. loaded (
      dict (
        field "secrets"
          (dict (
            field "luks_password_encrypted" (text (sample_blob "luks_password"))
              (field "user_password_encrypted" (text (sample_blob "user_password")) end)))
          end));
  safe_dump = λ v. "";
  repository_config_path = "config.yaml";
}

abbrev sample_random : Randomness
sample_random name = (sixteen_bytes, four_bytes ++ four_bytes ++ four_bytes)

abbrev sample_written : String
sample_written =
    "secrets:\n  user_password_encrypted: '"
    <> sample_blob "user_password"
    <> "'\n  luks_password_encrypted: '"
    <> sample_blob "luks_password"
    <> "'"

stored :
    store_secrets secrets_host [] sample_secrets "key" ≡ ok (some ("config.yaml", sample_written))
unfolding store_secrets arch_installer.Config.Environment.switch_is_on arch_installer.Prelude.lower
    arch_installer.Config.Environment.raw arch_installer.Prelude.Dict.lookup
    arch_installer.Cli.Assembly.file_values arch_installer.Config.File.read_config_file
    arch_installer.Config.File.config_file_setting_values arch_installer.Prelude.sort_texts
    arch_installer.Config.File.decrypted_credentials sample_blob unary decrypt_secret
    arch_installer.Prelude.split_on arch_installer.Core.Secrets.parse_cost
    arch_installer.Prelude.is_digits arch_installer.Prelude.parse_int counted
    arch_installer.Cli.Assembly.config_path arch_installer.Cli.SecretCommands.merged_secrets
    arch_installer.Cli.SecretCommands.refuse_mixed_keys arch_installer.Config.Builder.update
    arch_installer.Config.File.flatten arch_installer.Config.File.flatten_fields
    arch_installer.Config.SecretsFile.indent_of arch_installer.Config.SecretsFile.is_entry
    arch_installer.Config.SecretsFile.is_section_line
    arch_installer.Config.SecretsFile.replace_first arch_installer.Config.SecretsFile.set_lines
    arch_installer.Config.SecretsFile.set_secret_line arch_installer.Config.SecretsFile.set_secrets
    arch_installer.Config.SecretsFile.verify_each arch_installer.Config.SecretsFile.with_section
    arch_installer.Config.SecretsFile.without_empty_end
    arch_installer.Config.SecretsFile.without_indent
    arch_installer.Config.SecretsFile.write_encrypted_secrets arch_installer.Config.Value.get_field
    arch_installer.Config.Value.py_eq arch_installer.Core.Secrets.decrypt_parts
    arch_installer.Core.Secrets.decrypt_payload encoded encrypt_secret
    arch_installer.Core.Secrets.group_value arch_installer.Prelude.Dict.insert
    arch_installer.Prelude.char_text_at arch_installer.Prelude.is_space join show_nat
    arch_installer.Prelude.strip arch_installer.Prelude.strip_left
    arch_installer.Prelude.strip_right bump units
stored = refl

-- both passwords are "secret"
store_secrets-decrypted_credentials_example :
    (file_values
        (record secrets_host { text_of = λ p. some sample_written })
        (config_path secrets_host [])
      >>= λ values. decrypted_credentials lawful_ciphers limited values "key")
    ≡ ok (("credentials.luks_password", "secret") ∷ ("credentials.user_password", "secret") ∷ [])
unfolding encrypt_if_given sample_blob arch_installer.Cli.Assembly.config_path
    arch_installer.Config.Environment.raw arch_installer.Prelude.strip
    arch_installer.Prelude.strip_left arch_installer.Prelude.strip_right
    arch_installer.Prelude.Dict.lookup
store_secrets-decrypted_credentials_example =
    store_secrets-decrypted_credentials secrets_host sample_random lawful_ciphers-AreLawful
      (λ name. (refl, refl)) [] "key" "secret" "secret" (sample_blob "luks_password")
      (sample_blob "user_password") sample_written refl refl refl refl refl refl stored
