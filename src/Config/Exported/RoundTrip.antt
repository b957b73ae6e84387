-- ===== src/Config/Exported/RoundTrip.antt =====
-- What `exportable_config` leaves out, and that the rest reads back.
use arch_installer.Prelude.{◌≡◌, refl, ◌∙◌, ap, String, sort_texts, split_on, true, some, [], ◌∷◌}
use arch_installer.Errors.{ok, ◌>>=◌}
use arch_installer.Config.Value.{Value, dict, text, get_field, set_field}
use arch_installer.Config.Schema.{section_type, has_unique_names, section_has_unique_names}
use arch_installer.Config.Export.{plain_yaml_value}
use arch_installer.Config.Builder.{build, nested, update, convert, complete_or_missing}
use arch_installer.Config.File.{
  config_file_setting_values, flatten, flatten_fields, flatten_field, mapping_or_raise,
  read_config_file, loaded,
}
use arch_installer.Cli.Assembly.{Host, file_values}
use arch_installer.Prelude.Dict
use arch_installer.Prelude.Dict.{Dict}
use arch_installer.Config.Builder.RoundTrip.{convert-plain_yaml_value}
use arch_installer.Config.Models.{InstallerConfig}
use arch_installer.Config.Declared.{installer_config_section}
use arch_installer.Config.AsDict.{installer_config_dict}
use arch_installer.Config.AsDict.Features.{encrypted_secrets_config_dict, credentials_dict}
use arch_installer.Config.Conformance.{installer_config_dict-conforms}
use arch_installer.Config.Exported.{exportable_config, fields_of, remove_field}

sections_unique : has_unique_names (section_type installer_config_section) ≡ true
unfolding has_unique_names section_has_unique_names
sections_unique = refl

-- the two sections put back
abbrev pub completed : InstallerConfig → Value
unfolding exportable_config
completed config = dict (
    set_field "credentials" (plain_yaml_value (credentials_dict config.credentials)) (
      set_field "secrets" (plain_yaml_value (encrypted_secrets_config_dict config.secrets))
        (fields_of (exportable_config config))))

completed-plain :
    (config : InstallerConfig) → completed config ≡ plain_yaml_value (installer_config_dict config)
unfolding exportable_config fields_of remove_field plain_yaml_value installer_config_dict set_field
completed-plain config = refl

-- the passwords, and the encrypted ones, by their setting
abbrev pub put_back : InstallerConfig → Dict Value
put_back config =
    ("secrets.luks_password_encrypted", text config.secrets.luks_password_encrypted)
    ∷ ("secrets.user_password_encrypted", text config.secrets.user_password_encrypted)
    ∷ ("credentials.luks_password", text config.credentials.luks_password)
    ∷ ("credentials.user_password", text config.credentials.user_password)
    ∷ ("credentials.source_luks_password", text config.credentials.source_luks_password)
    ∷ []

module _ (repr : Value → String) where
  read_back-build :
      (config : InstallerConfig)
      → (config_file_setting_values installer_config_section (fields_of (exportable_config config))
          >>= λ values. build repr installer_config_section (update values (put_back config)))
        ≡ (convert repr (section_type installer_config_section) (completed config) "" []
            >>= complete_or_missing)
  unfolding config_file_setting_values flatten flatten_fields flatten_field exportable_config
      fields_of remove_field plain_yaml_value installer_config_dict build update nested convert
      set_field get_field sort_texts Dict.insert split_on
  read_back-build config = refl

  completed-build :
      (config : InstallerConfig)
      → (config_file_setting_values installer_config_section (fields_of (exportable_config config))
          >>= λ values. build repr installer_config_section (update values (put_back config)))
        ≡ ok (installer_config_dict config)
  completed-build config =
      read_back-build config
      ∙ ap
          (λ v.
            convert repr (section_type installer_config_section) v "" [] >>= complete_or_missing)
          (completed-plain config)
      ∙ ap (λ r. r >>= complete_or_missing)
          (convert-plain_yaml_value repr (section_type installer_config_section)
            (installer_config_dict config) "" [] sections_unique
            (installer_config_dict-conforms config))

mapping-exported :
    (path : String) (config : InstallerConfig)
    → mapping_or_raise path (exportable_config config) ≡ ok (fields_of (exportable_config config))
unfolding exportable_config fields_of
mapping-exported path config = refl

exported-values :
    (host : Host) (path : String) (config : InstallerConfig)
    → host.text_of path ≡ some (host.safe_dump (exportable_config config))
    → host.safe_load (host.safe_dump (exportable_config config)) ≡ loaded (exportable_config config)
    → file_values host path
      ≡ config_file_setting_values installer_config_section (fields_of (exportable_config config))
unfolding file_values read_config_file
exported-values host path config written reads =
    rw written (rw reads (rw (mapping-exported path config) refl))

-- A file that holds the YAML text of `exportable_config`, where YAML reads that text as the value it
-- was made from, is read as a configuration file without an error, and completed with the passwords
-- and the encrypted passwords, which it leaves out, builds the same configuration.
pub exportable_config-read_back :
    (host : Host) (path : String) (config : InstallerConfig)
    → host.text_of path ≡ some (host.safe_dump (exportable_config config))
    → host.safe_load (host.safe_dump (exportable_config config)) ≡ loaded (exportable_config config)
    → (file_values host path >>= λ values.
        build host.repr installer_config_section (update values (put_back config)))
      ≡ ok (installer_config_dict config)
exportable_config-read_back host path config written reads =
    ap
      (λ r.
        r >>= λ values. build host.repr installer_config_section (update values (put_back config)))
      (exported-values host path config written reads)
    ∙ completed-build host.repr config
