-- ===== src/Setup/Session.antt =====
-- setup/session.py: the questions of the steps, in step order. `str` stands for Python's, of a
-- value.
use arch_installer.Prelude.{
  String, member, Bool, true, false, ◌&&◌, ◌||◌, Option, none, some, List, [], ◌∷◌, map, all,
  if◌then◌else◌,
}
use arch_installer.Prelude.Dict.{Dict}
use arch_installer.Errors.{Result, ok, err, type_error, ◌>>=◌ as ◌then◌}
use arch_installer.Config.Value.{
  Value, null, text, list, tuple, dict, Fields, end, field, Items, nil, cons, py_eq,
}
use arch_installer.Config.ValuePrecedence.{ValueSource, environment, config_file, tui, SettingValue}
use arch_installer.Install.Questions.{Choice}
use arch_installer.Install.Wiring.{StepSetting}
use arch_installer.Setup.Frontend.{Inherited}

abbrev pub source_text : ValueSource → String
source_text environment = "environment"
source_text config_file = "config.yaml"
source_text tui = "TUI"

-- what the session keeps
pub record SetupSession : Type 0 where
  pub asked : List (String × StepSetting)
  pub offered_choices : Dict (List Choice)
  pub answers : Dict Value

-- `list(value)`: the characters of a text, the keys of a mapping
abbrev pub characters : String → List Value
characters String.[] = []
characters (String.◌∷◌ c s) = text (String.◌∷◌ c "") ∷ characters s

abbrev pub items_list : Items → List Value
items_list nil = []
items_list (cons v vs) = v ∷ items_list vs

abbrev pub key_list : Fields → List Value
key_list end = []
key_list (field k v fs) = text k ∷ key_list fs

unfoldable pub list_of : Value → Result (List Value)
list_of (list vs) = ok (items_list vs)
list_of (tuple vs) = ok (items_list vs)
list_of (text s) = ok (characters s)
list_of (dict fs) = ok (key_list fs)
list_of v = err type_error

abbrev pub items_from : List Value → Items
items_from [] = nil
items_from (v ∷ vs) = cons v (items_from vs)

abbrev pub is_none : Value → Bool
is_none null = true
is_none v = false

-- `inherited.value if inherited else None`
abbrev pub value_or_null : Option SettingValue → Value
value_or_null none = null
value_or_null (some setting) = setting.value

-- `_inherited_as`, with the conversion of a value that is not None
abbrev pub convert_inherited :
    {A : Type 0} → SettingValue → (Value → Result A) → Result (Option (Inherited A))
convert_inherited setting convert =
    if is_none setting.value
    then ok none
    else convert setting.value then λ v.
        ok (some (record { value = v; source = source_text setting.source }))

unfoldable pub inherited_as :
    {A : Type 0} → Option SettingValue → (Value → Result A) → Result (Option (Inherited A))
inherited_as none convert = ok none
inherited_as (some setting) convert = convert_inherited setting convert

module _ (str : Value → String) where
  unfoldable pub inherited_text : Option SettingValue → Option (Inherited String)
  inherited_text none = none
  inherited_text (some setting) =
      if is_none setting.value || py_eq setting.value (text "")
      then none
      else some (record { value = str setting.value; source = source_text setting.source })

  -- `_as_texts(a) == _as_texts(b)`, as sets
  unfoldable pub same_texts : List Value → List Value → Bool
  same_texts xs ys =
      all (λ x. member x (map str ys)) (map str xs) && all (λ y. member y (map str xs)) (map str ys)

  -- an equal selection keeps the inherited value
  unfoldable pub kept_or_chosen : Option SettingValue → List Value → Result Value
  kept_or_chosen none chosen = ok (list (items_from chosen))
  kept_or_chosen (some setting) chosen = list_of setting.value then λ inherited.
      ok (if same_texts chosen inherited then setting.value else list (items_from chosen))
