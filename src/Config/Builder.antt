-- ===== src/Config/Builder.antt =====
-- config/installer_config_builder.py: the configuration from setting values by dotted path. A
-- dataclass instance is the mapping of its arguments. `repr` stands for Python's.
pub mod Cases
pub mod Soundness
pub mod RoundTrip
use arch_installer.Prelude.{
  String, ◌<>◌, ◌==◌, split_on, join, member, show_nat, Bool, true, false, not, Option, none, some,
  List, [], ◌∷◌, ◌++◌, map, ℕ, suc, ltb, if◌then◌else◌, sort_texts,
}
use arch_installer.Prelude.Dict
use arch_installer.Prelude.Dict.{Dict}
use arch_installer.Errors.{
  Error, configuration_error, missing_settings_error, Result, ok, err, ◌>>=◌,
}
use arch_installer.Config.Value.{
  Value, null, bool, int, text, list, tuple, dict, other, Items, nil, cons, Fields, end, field,
  get_field, set_field, count_fields,
}
use arch_installer.Config.Schema.{
  FieldType, text_type, int_type, bool_type, enum_type, tuple_type, optional_type, section_type,
  Section, done, declare, count_declared, is_declared,
}

-- A value with the settings found missing so far.
abbrev pub Converted : Type 0 → Type 0
Converted A = Result (A × List String)

abbrev pub location : String → String
location path = if path == "" then "configuration" else path

abbrev pub sub_path : String → String → String
sub_path path name = if path == "" then name else path <> "." <> name

-- the keys of a mapping that the section does not declare
abbrev pub unknown_keys : Section → Fields → List String
unknown_keys s end = []
unknown_keys s (field k v fs) =
    let rest = unknown_keys s fs in if is_declared k s then rest else k ∷ rest

-- The tests at the head of `_build_section`, and what follows them.
abbrev pub without_unknown :
    {A : Type 0} → List String → String → (Fields → Result A) → Fields → Result A
without_unknown [] path body fs = body fs
without_unknown (k ∷ ks) path body fs = err (
    configuration_error (
      "Unknown configuration key(s)"
      <> (if path == "" then "" else " in " <> path)
      <> ": "
      <> join ", " (k ∷ ks)))

abbrev pub with_mapping : {A : Type 0} → Section → Value → String → (Fields → Result A) → Result A
with_mapping s (dict fs) path body = without_unknown (sort_texts (unknown_keys s fs)) path body fs
with_mapping s _ path body = err (configuration_error (location path <> " must be a mapping"))

-- `None` for a section with a field missing
abbrev pub instance_of : Section → Fields × List String → Converted Value
instance_of s (arguments, missing) =
    if ltb (count_fields arguments) (count_declared s)
    then ok (null, missing)
    else ok (dict arguments, missing)

-- the items of a list, each at its index
abbrev pub convert_items :
    (Value → String → List String → Converted Value)
    → Items
    → String
    → ℕ
    → List String
    → Converted Items
convert_items f nil path index missing = ok (nil, missing)
convert_items f (cons v vs) path index missing =
    f v (path <> "[" <> show_nat index <> "]") missing >>= λ (v', m).
    convert_items f vs path (suc index) m >>= λ (vs', m'). ok (cons v' vs', m')

abbrev pub tuple_of : Items × List String → Converted Value
tuple_of (vs, missing) = ok (tuple vs, missing)

abbrev pub convert_optional : Value → (Value → Converted Value) → List String → Converted Value
convert_optional null f missing = ok (null, missing)
convert_optional v f missing = f v

abbrev pub convert_tuple :
    Value → String → (Items → Converted Items) → List String → Converted Value
convert_tuple null path f missing = ok (tuple nil, missing)
convert_tuple (list vs) path f missing = f vs >>= tuple_of
convert_tuple (tuple vs) path f missing = f vs >>= tuple_of
convert_tuple _ path f missing = err (configuration_error (path <> " must be a list"))

module _ (repr : Value → String) where
  enum_error : List String → Value → String → Error
  enum_error members v path =
      configuration_error (
        path <> ": " <> repr v <> " is not one of " <> join ", " (map (λ m. repr (text m)) members))

  abbrev enum_member : List String → String → Value → String → List String → Converted Value
  enum_member members t v path missing =
      if member t members then ok (text t, missing) else err (enum_error members v path)

  unfoldable pub convert_enum : List String → Value → String → List String → Converted Value
  unfolding enum_error
  convert_enum members (text t) path missing = enum_member members t (text t) path missing
  convert_enum members null path missing = enum_member members "" null path missing
  convert_enum members v path missing = err (enum_error members v path)

  abbrev pub convert_int : Value → String → List String → Converted Value
  convert_int (int n) path missing = ok (int n, missing)
  convert_int v path missing =
      err (configuration_error (path <> " must be an integer, got " <> repr v))

  abbrev pub convert_bool : Value → String → List String → Converted Value
  convert_bool (bool b) path missing = ok (bool b, missing)
  convert_bool v path missing =
      err (configuration_error (path <> " must be true or false, got " <> repr v))

  abbrev pub convert_text : Value → String → List String → Converted Value
  convert_text null path missing = ok (text "", missing)
  convert_text (text t) path missing = ok (text t, missing)
  convert_text v path missing =
      err (configuration_error (path <> " must be a string, got " <> repr v <> " (quote it)"))

  -- one declared field: reported if it is missing, else converted
  abbrev convert_present :
      String
      → Option Value
      → (Value → Converted Value)
      → (List String → Converted Fields)
      → List String
      → String
      → Converted Fields
  convert_present name none f rest missing setting_path = rest (missing ++ (setting_path ∷ []))
  convert_present name (some v) f rest missing setting_path =
      f v >>= λ (v', m). rest m >>= λ (arguments, m'). ok (field name v' arguments, m')

  unfoldable mutual
    unfolding convert_enum

    pub convert : FieldType → Value → String → List String → Converted Value
    convert (optional_type t) v path missing =
        convert_optional v (λ u. convert t u path missing) missing
    convert (tuple_type t) v path missing =
        convert_tuple v path (λ vs. convert_items (convert t) vs path 0 missing) missing
    convert (section_type s) v path missing =
        with_mapping s v path (λ fs. convert_fields s fs path missing >>= instance_of s)
    convert (enum_type members) v path missing = convert_enum members v path missing
    convert int_type v path missing = convert_int v path missing
    convert bool_type v path missing = convert_bool v path missing
    convert text_type v path missing = convert_text v path missing

    pub convert_fields : Section → Fields → String → List String → Converted Fields
    convert_fields done fs path missing = ok (end, missing)
    convert_fields (declare name t s) fs path missing =
        convert_present name (get_field name fs) (λ v. convert t v (sub_path path name) missing)
          (λ m. convert_fields s fs path m) missing (sub_path path name)

inner_section : String → Option Value → Result Fields
inner_section setting_path none = ok end
inner_section setting_path (some (dict fs)) = ok fs
inner_section setting_path (some v) =
    err (configuration_error (setting_path <> " is inside a setting that is a value"))

-- `_nested`: one setting put at its dotted path
put_at : String → List String → Value → Fields → Result Fields
unfolding inner_section
put_at setting_path [] v section = ok section
put_at setting_path (name ∷ []) v section = ok (set_field name v section)
put_at setting_path (name ∷ (next ∷ names)) v section =
    inner_section setting_path (get_field name section) >>= λ inner.
    put_at setting_path (next ∷ names) v inner >>= λ inner'.
    ok (set_field name (dict inner') section)

nest : Dict Value → Fields → Result Fields
unfolding put_at
nest [] nested = ok nested
nest ((setting_path, v) ∷ values) nested =
    put_at setting_path (split_on 46 setting_path) v nested >>= nest values

unfoldable pub nested : Dict Value → Result Fields
unfolding nest
nested values = nest values end

-- `{**dict.fromkeys(CREDENTIAL_PATHS, ""), **values}`
unfoldable pub update : Dict Value → Dict Value → Dict Value
update d [] = d
update d ((k, v) ∷ values) = update (Dict.insert k v d) values

abbrev pub no_credentials : Dict Value
no_credentials =
    ("credentials.luks_password", text "")
    ∷ ("credentials.user_password", text "")
    ∷ ("credentials.source_luks_password", text "")
    ∷ []

abbrev pub complete_or_missing : Value × List String → Result Value
complete_or_missing (config, []) = ok config
complete_or_missing (config, path ∷ paths) = err (missing_settings_error (path ∷ paths))

unfoldable pub build : (Value → String) → Section → Dict Value → Result Value
unfolding nested update convert
build repr s values = nested (update no_credentials values) >>= λ fs.
    convert repr (section_type s) (dict fs) "" [] >>= complete_or_missing
