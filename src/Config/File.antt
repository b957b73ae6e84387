-- ===== src/Config/File.antt =====
-- config/config_file.py: the settings of config.yaml by dotted path, and its encrypted passwords. The
-- file is a parameter, read by `yaml.safe_load`.
use arch_installer.Prelude.{
  String, ◌<>◌, ◌==◌, join, sort_texts, Bool, true, false, not, ◌&&◌, ◌||◌, Option, none, some,
  List, [], ◌∷◌, if◌then◌else◌,
}
use arch_installer.Prelude.Dict
use arch_installer.Prelude.Dict.{Dict}
use arch_installer.Errors.{configuration_error, attribute_error, Result, ok, err, ◌>>=◌}
use arch_installer.Core.Secrets.{Ciphers, Derivation, decrypt_secret}
use arch_installer.Config.Value.{Value, null, text, dict, Fields, end, field, truthy}
use arch_installer.Config.Schema.{FieldType, section_type, Section, field_type, is_declared}
use arch_installer.Config.Builder.{location, sub_path, update, build}

-- what `yaml.safe_load` makes of a file
pub data FileContent : Type 0 where
  no_file : FileContent
  unparsable : String → FileContent
  parsed : Value → FileContent

-- what `yaml.safe_load` makes of a text
pub data Loaded : Type 0 where
  invalid : String → Loaded
  loaded : Value → Loaded

abbrev pub mapping_or_raise : String → Value → Result Fields
mapping_or_raise config_path null = ok end
mapping_or_raise config_path (dict fs) = ok fs
mapping_or_raise config_path v =
    err (configuration_error ("Configuration " <> config_path <> " must be a YAML mapping"))

unfoldable pub read_config_file : String → FileContent → Result Fields
read_config_file config_path no_file =
    err (configuration_error ("Configuration file not found: " <> config_path))
read_config_file config_path (unparsable problem) =
    err (configuration_error ("Failed to parse configuration " <> config_path <> ": " <> problem))
read_config_file config_path (parsed raw) = mapping_or_raise config_path raw

-- the fields that a file may name: no credentials at the top
abbrev pub may_name : Bool → Section → String → Bool
may_name is_top s name = is_declared name s && not (is_top && name == "credentials")

abbrev pub refused_keys : Bool → Section → Fields → List String
refused_keys is_top s end = []
refused_keys is_top s (field k v fs) =
    let rest = refused_keys is_top s fs in if may_name is_top s k then rest else k ∷ rest

abbrev pub without_refused : {A : Type 0} → List String → String → Result A → Result A
without_refused [] path body = body
without_refused (k ∷ ks) path body = err (
    configuration_error (
      "Unknown configuration key(s)"
      <> (if path == "" then "" else " in " <> path)
      <> ": "
      <> join ", " (k ∷ ks)))

-- `_flatten`, on a mapping with the given fields. The prefix is the path with a dot; `values` is what
-- was read so far.
abbrev pub flattened : Bool → Section → Fields → String → Result (Dict Value) → Result (Dict Value)
flattened is_top s fs path body = without_refused (sort_texts (refused_keys is_top s fs)) path body

unfoldable mutual
  pub flatten_fields : Section → Fields → String → Dict Value → Result (Dict Value)
  flatten_fields s end path values = ok values
  flatten_fields s (field name v fs) path values =
      flatten_field (field_type name s) v (sub_path path name) values >>= λ values'.
      flatten_fields s fs path values'

  pub flatten_field : Option FieldType → Value → String → Dict Value → Result (Dict Value)
  flatten_field (some (section_type s)) (dict gs) setting_path values =
      flattened false s gs setting_path (flatten_fields s gs setting_path []) >>= λ inner.
      ok (update values inner)
  flatten_field t v setting_path values = ok (Dict.insert setting_path v values)

unfoldable pub flatten : Section → Value → String → Result (Dict Value)
unfolding flatten_fields
flatten s (dict fs) path = flattened true s fs path (flatten_fields s fs path [])
flatten s v path = err (configuration_error (location path <> " must be a mapping"))

unfoldable pub config_file_setting_values : Section → Fields → Result (Dict Value)
unfolding flatten
config_file_setting_values s raw = flatten s (dict raw) ""

-- the file alone, with no environment and no setup
unfoldable pub load_config_file : (Value → String) → Section → String → FileContent → Result Value
unfolding read_config_file config_file_setting_values
load_config_file repr s config_path content = do
  raw ← read_config_file config_path content
  values ← config_file_setting_values s raw
  build repr s values

abbrev pub encrypted_credentials : List (String × (String × String))
encrypted_credentials =
    ("secrets.luks_password_encrypted", ("credentials.luks_password", "luks_password"))
    ∷ ("secrets.user_password_encrypted", ("credentials.user_password", "user_password"))
    ∷ []

-- `any(values.get(path) for path in ENCRYPTED_CREDENTIALS)`
abbrev found : Option Value → Bool
found none = false
found (some v) = truthy v

abbrev any_found : Dict Value → List (String × (String × String)) → Bool
any_found values [] = false
any_found values ((encrypted_path, entry) ∷ entries) =
    found (Dict.lookup encrypted_path values) || any_found values entries

unfoldable pub has_encrypted_credentials : Dict Value → Bool
has_encrypted_credentials values = any_found values encrypted_credentials

module _ (ciphers : Ciphers) (derive : Derivation) where
  -- a value that is no text has no `split`
  abbrev decrypt_value : Value → String → String → Result String
  decrypt_value (text blob) secrets_key secret_name =
      decrypt_secret ciphers derive blob secrets_key secret_name
  decrypt_value v secrets_key secret_name = err attribute_error

  abbrev decrypt_found :
      Option Value → String → String → String → Dict String → Result (Dict String)
  decrypt_found none secrets_key path secret_name credentials = ok credentials
  decrypt_found (some v) secrets_key path secret_name credentials =
      if truthy v
      then (decrypt_value v secrets_key secret_name >>= λ password.
          ok (Dict.insert path password credentials))
      else ok credentials

  abbrev decrypt_entries :
      Dict Value → String → List (String × (String × String)) → Dict String → Result (Dict String)
  decrypt_entries values secrets_key [] credentials = ok credentials
  decrypt_entries values secrets_key ((encrypted_path, (path, secret_name)) ∷ entries) credentials =
      decrypt_found (Dict.lookup encrypted_path values) secrets_key path secret_name credentials
      >>= decrypt_entries values secrets_key entries

  unfoldable pub decrypted_credentials : Dict Value → String → Result (Dict String)
  decrypted_credentials values secrets_key =
      decrypt_entries values secrets_key encrypted_credentials []
