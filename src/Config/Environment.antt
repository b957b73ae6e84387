-- ===== src/Config/Environment.antt =====
-- config/environment.py: reading the environment variables that are set. `repr` stands for Python's.
use arch_installer.Prelude.{
  String, ◌<>◌, ◌==◌, ◌||◌, Bool, true, false, not, Option, none, some, List, [], ◌∷◌, member,
  lower, strip, if◌then◌else◌,
}
use arch_installer.Prelude.Dict
use arch_installer.Prelude.Dict.{Dict}
use arch_installer.Errors.{configuration_error, Result, ok, err}
use arch_installer.Config.Value.{Value, text}
use arch_installer.Config.Schema.{Section}
use arch_installer.Config.Reading.{true_words, false_words, read_setting_text}

abbrev pub raw_of : Option String → String
raw_of none = ""
raw_of (some t) = strip t

-- `_raw`, and `text`
unfoldable pub raw : Dict String → String → String
raw variables variable = raw_of (Dict.lookup variable variables)

unfoldable pub is_set : Dict String → String → Bool
is_set variables variable = not (raw variables variable == "")

unfoldable pub switch_is_on : (Value → String) → Dict String → String → Result Bool
switch_is_on repr variables variable =
    let word = lower (raw variables variable) in
    if word == "" || member word false_words
    then ok false
    else if member word true_words
    then ok true
    else err (configuration_error (variable <> " must be true or false, got " <> repr (text word)))

-- what follows a setting that was read, with its value put into the mapping
abbrev pub with_read :
    String
    → Option (Result Value)
    → Dict Value
    → (Dict Value → Option (Result (Dict Value)))
    → Option (Result (Dict Value))
with_read setting_path none values next = none
with_read setting_path (some (err e)) values next = some (err e)
with_read setting_path (some (ok v)) values next = next (Dict.insert setting_path v values)

-- the variables that are left, after `values` was read
setting_values_loop :
    (Value → String)
    → Section
    → Dict String
    → Dict Value
    → List (String × String)
    → Option (Result (Dict Value))
setting_values_loop repr s variables values [] = some (ok values)
setting_values_loop repr s variables values ((variable, setting_path) ∷ variable_paths) =
    let next = λ (vs : Dict Value). setting_values_loop repr s variables vs variable_paths in
    if is_set variables variable
    then with_read setting_path
        (read_setting_text repr s setting_path (raw variables variable) variable) values next
    else next values

-- `setting_values`, over the pairs of a variable and the path of its setting; none where a path is not
-- one of the model, for Python's `KeyError`
unfoldable pub setting_values :
    (Value → String) → Section → Dict String → List (String × String) → Option (Result (Dict Value))
unfolding setting_values_loop
setting_values repr s variables variable_paths =
    setting_values_loop repr s variables [] variable_paths
