-- ===== src/Config/ValuePrecedence.antt =====
-- config/value_precedence.py: where each setting's value comes from, and which source wins.
pub mod Winner
use arch_installer.Prelude.{
  String, Bool, true, false, Option, none, some, List, [], ◌∷◌, ◌||◌, not, if◌then◌else◌,
}
use arch_installer.Prelude.Dict
use arch_installer.Prelude.Dict.{Dict}
use arch_installer.Config.Value.{Value, py_eq}

pub data ValueSource : Type 0 where
  environment config_file tui : ValueSource

pub record SettingValue : Type 0 where
  pub value : Value
  pub source : ValueSource

-- the inner loop of `inherit_setting_values`, over the values of one source
unfoldable pub inherit_from : ValueSource → Dict Value → Dict SettingValue → Dict SettingValue
inherit_from source [] inherited = inherited
inherit_from source ((setting_path, value) ∷ values) inherited =
    inherit_from source values
      (Dict.set_default setting_path (record { value = value; source = source }) inherited)

-- `INHERITANCE_ORDER` is the environment, then the file
unfoldable pub inherit_setting_values : Dict Value → Dict Value → Dict SettingValue
inherit_setting_values environment_values config_file_values =
    inherit_from config_file config_file_values (inherit_from environment environment_values [])

abbrev pub differs : Option SettingValue → Value → Bool
differs none value = true
differs (some previous) value = not (py_eq previous.value value)

unfoldable pub choose : Dict SettingValue → Dict Value → Dict SettingValue → Dict SettingValue
choose inherited [] chosen = chosen
choose inherited ((setting_path, value) ∷ choices) chosen = choose inherited choices (
    if differs (Dict.lookup setting_path inherited) value
    then Dict.insert setting_path (record { value = value; source = tui }) chosen
    else chosen)

unfoldable pub apply_tui_choices : Dict SettingValue → Dict Value → Dict SettingValue
apply_tui_choices inherited tui_choices = choose inherited tui_choices inherited

unfoldable pub plain_values : Dict SettingValue → Dict Value
plain_values [] = []
plain_values ((setting_path, setting) ∷ settings) =
    (setting_path, setting.value) ∷ plain_values settings
