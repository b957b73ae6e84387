-- ===== src/Config/ValuePrecedence/Winner.antt =====
-- config/value_precedence.py: the winning value of every setting, and the source it is shown with.
use arch_installer.Prelude.{
  ◌≡◌, refl, ◌∙◌, String, Option, none, some, [], ◌∷◌, arith, eq_iff, if◌then◌else◌,
}
use arch_installer.Prelude.Dict
use arch_installer.Prelude.Dict.{
  Dict, NodupKeys, lookup-insert, lookup-set_default, lookup-cons, first_of_two,
}
use arch_installer.Config.Value.{Value}
use arch_installer.Config.ValuePrecedence.{
  ValueSource, environment, config_file, tui, SettingValue, differs, inherit_from,
  inherit_setting_values, choose, apply_tui_choices, plain_values,
}

abbrev pub with_source : ValueSource → Option Value → Option SettingValue
with_source source none = none
with_source source (some v) = some (record { value = v; source = source })

abbrev pub value_of : Option SettingValue → Option Value
value_of none = none
value_of (some s) = some s.value

-- The choice of the interactive setup, over what was inherited: it is kept out where it equals that.
abbrev pub override : Option SettingValue → Option Value → Option SettingValue
override inherited none = inherited
override inherited (some v) =
    if differs inherited v then some (record { value = v; source = tui }) else inherited

lookup-inherit_from :
    (source : ValueSource) (k : String) (values : Dict Value) (inherited : Dict SettingValue)
    → Dict.lookup k (inherit_from source values inherited)
      ≡ first_of_two (Dict.lookup k inherited) (with_source source (Dict.lookup k values))
unfolding inherit_from Dict.lookup
lookup-inherit_from source k [] inherited = ground arith
lookup-inherit_from source k ((j, v) ∷ values) inherited = ground (
  arith,
  lookup-inherit_from source k values
      (Dict.set_default j (record { value = v; source = source }) inherited),
  lookup-set_default j k (record { value = v; source = source }) inherited,
)

-- The environment's value of a setting wins over that of config.yaml, and each is inherited with its
-- source; a setting that neither provides is not inherited.
pub lookup-inherit_setting_values :
    (k : String) (env file : Dict Value)
    → Dict.lookup k (inherit_setting_values env file)
      ≡ first_of_two
          (with_source environment (Dict.lookup k env))
          (with_source config_file (Dict.lookup k file))
unfolding inherit_setting_values Dict.lookup
lookup-inherit_setting_values k env file = ground (
  arith,
  lookup-inherit_from config_file k file (inherit_from environment env []),
  lookup-inherit_from environment k env [],
)

abbrev chosen_or : Option SettingValue → Option SettingValue → Option Value → Option SettingValue
chosen_or previous current none = current
chosen_or previous current (some v) =
    if differs previous v then some (record { value = v; source = tui }) else current

chosen_or-override :
    (previous : Option SettingValue) (answer : Option Value)
    → chosen_or previous previous answer ≡ override previous answer
chosen_or-override previous none = refl
chosen_or-override previous (some v) = refl

lookup-choose :
    (k : String) (inherited : Dict SettingValue) (choices : Dict Value) (chosen : Dict SettingValue)
    → NodupKeys choices
    → Dict.lookup k (choose inherited choices chosen)
      ≡ chosen_or (Dict.lookup k inherited) (Dict.lookup k chosen) (Dict.lookup k choices)
unfolding choose Dict.lookup
lookup-choose k inherited [] chosen u = refl
lookup-choose k inherited ((j, v) ∷ choices) chosen (fresh, u) =
    rw (lookup-choose k inherited choices _ u)
      (ground (arith, eq_iff j k, lookup-insert j k (record { value = v; source = tui }) chosen))

lookup-plain_values :
    (k : String) (settings : Dict SettingValue)
    → Dict.lookup k (plain_values settings) ≡ value_of (Dict.lookup k settings)
unfolding plain_values Dict.lookup
lookup-plain_values k [] = refl
lookup-plain_values k ((j, s) ∷ settings) = ground (arith, lookup-plain_values k settings)

-- After the interactive setup a setting has the answer, marked as the setup's, unless it was not
-- asked or the answer equals the inherited value: then the inherited value stays, with its source.
pub lookup-apply_tui_choices :
    (k : String) (inherited : Dict SettingValue) (choices : Dict Value)
    → NodupKeys choices
    → Dict.lookup k (apply_tui_choices inherited choices)
      ≡ override (Dict.lookup k inherited) (Dict.lookup k choices)
unfolding apply_tui_choices
lookup-apply_tui_choices k inherited choices u =
    lookup-choose k inherited choices inherited u
    ∙ chosen_or-override (Dict.lookup k inherited) (Dict.lookup k choices)

-- The value that the configuration is built from, over all three sources: the answer of the setup,
-- else the environment's value, else that of config.yaml. An answer that equals what it replaces
-- leaves that in place. The answers name no setting twice.
pub plain_values-winner :
    (k : String) (env file choices : Dict Value)
    → NodupKeys choices
    → Dict.lookup k (plain_values (apply_tui_choices (inherit_setting_values env file) choices))
      ≡ value_of (
          override
            (first_of_two
              (with_source environment (Dict.lookup k env))
              (with_source config_file (Dict.lookup k file)))
            (Dict.lookup k choices))
plain_values-winner k env file choices u = rw (
  lookup-plain_values,
  lookup-apply_tui_choices k (inherit_setting_values env file) choices u,
  lookup-inherit_setting_values,
)
