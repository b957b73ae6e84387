-- ===== src/Install/Wiring.antt =====
-- install_steps/wiring.py: conditions on the settings, and how a step is wired.
use arch_installer.Prelude.{String, split_on, Bool, true, Option, none, some, List, [], ◌∷◌}
use arch_installer.Errors.{attribute_error, Result, ok, err, ◌>>=◌}
use arch_installer.Core.Exec.{Exec, Done}
use arch_installer.Config.Value.{Value, dict, get_field, truthy, py_eq}
use arch_installer.Config.Models.{InstallerConfig}
use arch_installer.Config.AsDict.{installer_config_dict}
use arch_installer.Install.Questions.{Question}

abbrev pub SettingLookup : Type 0
SettingLookup = String → Result Value

abbrev pub StepCondition : Type 0
StepCondition = SettingLookup → Result Bool

unfoldable pub always : StepCondition
always value = ok true

unfoldable pub when : String → StepCondition
when setting_path value = value setting_path >>= λ v. ok (truthy v)

unfoldable pub when_equal : String → Value → StepCondition
when_equal setting_path expected value = value setting_path >>= λ v. ok (py_eq v expected)

-- `getattr`, on the fields of a configuration as a dictionary
abbrev pub get_attribute : String → Value → Option Value
get_attribute name (dict fs) = get_field name fs
get_attribute name v = none

abbrev pub or_attribute_error : Option Value → Result Value
or_attribute_error none = err attribute_error
or_attribute_error (some v) = ok v

unfoldable pub get_path : List String → Value → Result Value
get_path [] current = ok current
get_path (name ∷ names) current = or_attribute_error (get_attribute name current) >>= get_path names

unfoldable pub config_lookup : InstallerConfig → SettingLookup
unfolding get_path
config_lookup config setting_path =
    get_path (split_on 46 setting_path) (installer_config_dict config)

pub record StepSetting : Type 0 where
  pub path : String
  pub environment_variable : Option String
  pub question : Option Question
  pub asked_when : StepCondition

pub record StepWiring : Type 0 where
  pub config_sections : List String
  pub settings : List StepSetting
  pub enabled : StepCondition
  pub executor : InstallerConfig → Exec Done
