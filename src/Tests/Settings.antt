-- ===== src/Tests/Settings.antt =====
-- The configuration's sources and the builder on concrete settings.
use arch_installer.Prelude.{◌≡◌, refl, split_on, sort_texts, join, true, false, some, [], ◌∷◌, pos}
use arch_installer.Prelude.Dict
use arch_installer.Prelude.Dict.{Dict, NodupKeys}
use arch_installer.Errors.{ok, err, Holds, missing_settings_error, configuration_error}
use arch_installer.Config.Value.{
  py_eq, get_field, set_field, Value, text, int, bool, null, list, tuple, dict, nil, cons, end,
  field,
}
use arch_installer.Config.ValuePrecedence.{
  environment, inherit_setting_values, apply_tui_choices, plain_values,
}
use arch_installer.Config.ValuePrecedence.Winner.{
  lookup-inherit_setting_values, plain_values-winner,
}
use arch_installer.Config.Schema.{
  text_type, int_type, tuple_type, section_type, Section, done, declare, has_unique_names,
}
use arch_installer.Config.Export.{plain_yaml_value, conforms}
use arch_installer.Config.Builder.{convert, build}
use arch_installer.Config.Builder.Soundness.{build-conforms}
use arch_installer.Config.Builder.RoundTrip.{convert-plain_yaml_value}
use arch_installer.Config.Reading.{from_text}
use arch_installer.Config.Reading.Accepted.{IsAccepted, from_text-IsAccepted}
use arch_installer.Config.Environment.{switch_is_on}

abbrev env_values : Dict Value
env_values = ("storage.target_disk", text "/dev/vda") ∷ ("docker.enabled", bool true) ∷ []

abbrev file_values : Dict Value
file_values = ("docker.enabled", bool false) ∷ ("system.hostname", text "dali") ∷ []

abbrev answers : Dict Value
answers = ("system.hostname", text "iris") ∷ ("docker.enabled", bool true) ∷ []

lookup-inherit_setting_values_example :
    Dict.lookup "docker.enabled" (inherit_setting_values env_values file_values)
    ≡ some (record { value = bool true; source = environment })
unfolding Dict.lookup
lookup-inherit_setting_values_example =
    lookup-inherit_setting_values "docker.enabled" env_values file_values

plain_values-winner_example :
    Dict.lookup "system.hostname"
      (plain_values (apply_tui_choices (inherit_setting_values env_values file_values) answers))
    ≡ some (text "iris")
unfolding Dict.lookup py_eq
plain_values-winner_example =
    plain_values-winner "system.hostname" env_values file_values answers (refl, (refl, tt))

abbrev sample_section : Section
sample_section =
    declare "user"
      (section_type (declare "name" text_type (declare "groups" (tuple_type text_type) done)))
      (declare "size_mb" int_type (
        declare "credentials"
          (section_type (
            declare "luks_password" text_type
              (declare "user_password" text_type (declare "source_luks_password" text_type done))))
          done))

abbrev settings : Dict Value
settings =
    ("size_mb", int (pos 4096))
    ∷ ("user.groups", list (cons (text "wheel") nil))
    ∷ ("credentials.luks_password", text "secret")
    ∷ ("user.name", null)
    ∷ []

abbrev built : Value
built = dict (
    field "user"
      (dict (field "name" (text "") (field "groups" (tuple (cons (text "wheel") nil)) end)))
      (field "size_mb" (int (pos 4096)) (
        field "credentials"
          (dict (
            field "luks_password" (text "secret")
              (field "user_password" (text "") (field "source_luks_password" (text "") end))))
          end)))

build_example : build (λ v. "?") sample_section settings ≡ ok built
unfolding build Dict.insert split_on get_field set_field sort_texts
build_example = refl

build_missing :
    build (λ v. "?") sample_section (("user.name", text "ada") ∷ [])
    ≡ err (missing_settings_error ("user.groups" ∷ "size_mb" ∷ []))
unfolding build Dict.insert split_on get_field set_field sort_texts
build_missing = refl

build_unknown :
    build (λ v. "?") sample_section (("user.nam", text "ada") ∷ ("user.age", null) ∷ [])
    ≡ err (configuration_error "Unknown configuration key(s) in user: age, nam")
unfolding build Dict.insert split_on get_field set_field sort_texts join
build_unknown = refl

build-conforms_example :
    Holds
      (λ config. conforms (section_type sample_section) config ≡ true)
      (build (λ v. "?") sample_section settings)
build-conforms_example = build-conforms (λ v. "?") sample_section settings

convert-plain_yaml_value_example :
    convert (λ v. "?") (section_type sample_section) (plain_yaml_value built) "" [] ≡ ok (built, [])
unfolding has_unique_names conforms
convert-plain_yaml_value_example =
    convert-plain_yaml_value (λ v. "?") (section_type sample_section) built "" [] refl refl

from_text-IsAccepted_example :
    Holds
      (IsAccepted (λ v. "?") (tuple_type int_type))
      (from_text (λ v. "?") (tuple_type int_type) "80, 443," "ports")
from_text-IsAccepted_example =
    from_text-IsAccepted (λ v. "?") (tuple_type int_type) "80, 443," "ports" refl

read_ports :
    from_text (λ v. "?") (tuple_type int_type) "80, 443," "ports"
    ≡ ok (tuple (cons (int (pos 80)) (cons (int (pos 443)) nil)))
unfolding from_text arch_installer.Config.Reading.read_items
    arch_installer.Config.Reading.text_items split_on arch_installer.Prelude.strip
    arch_installer.Config.Reading.int_from_text arch_installer.Prelude.is_digits
    arch_installer.Config.Reading.parsed_number arch_installer.Prelude.parse_int
read_ports = refl

switches :
    (switch_is_on (λ v. "?") (("NO_WRITE", " Yes ") ∷ []) "NO_WRITE" ≡ ok true)
    × (switch_is_on (λ v. "?") [] "NO_WRITE" ≡ ok false)
unfolding switch_is_on arch_installer.Prelude.lower arch_installer.Config.Environment.raw
    Dict.lookup arch_installer.Prelude.strip
switches = (refl, refl)
