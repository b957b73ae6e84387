-- ===== src/Tui/Curses.antt =====
-- tui/curses_frontend.py: `CursesFrontend`, the front-end on the widgets.
use arch_installer.Prelude.{
  String, ◌<>◌, ◌==◌, show_nat, parse_int, Bool, true, false, ◌||◌, Option, none, some, List, [],
  ◌∷◌, map, ℕ, suc, ℤ, length, if◌then◌else◌,
}
use arch_installer.Errors.{Result, ok, err, value_error, ◌>>=◌ as ◌then◌}
use arch_installer.Config.Value.{Value, py_eq}
use arch_installer.Prelude.Dict.{Dict}
use arch_installer.Config.ValuePrecedence.{SettingValue}
use arch_installer.Setup.Run.{run_setup}
use arch_installer.Install.Questions.{Choice, ChooseOne, ChooseMany, EnterText, EnterSecret, Switch}
use arch_installer.Setup.Ui.{Ui, pure, or_raise, ◌>>=◌}
use arch_installer.Setup.Talk.{Talk, on_screen, ◌>>=◌ as ◌talk◌}
use arch_installer.Setup.Frontend.{Inherited, SummaryRow, SetupFrontend}
use arch_installer.Tui.Lists.{item_at, found_or_raise}
use arch_installer.Tui.Menus.{MenuOption, radio_menu, checkbox_menu, confirm_screen}
use arch_installer.Tui.Entry.{text_input, password_input_with_confirm, info_screen}
use arch_installer.Tui.Rows.{summary_rows}

abbrev pub secret_options : List MenuOption
secret_options =
    record { value = "keep"; label = "Keep the inherited password" }
    ∷ record { value = "replace"; label = "Enter a new password" }
    ∷ []

-- each choice's position, as text
unfoldable pub options_from : ℕ → List Choice → List MenuOption
options_from position [] = []
options_from position (choice ∷ choices) =
    record { value = show_nat position; label = choice.label } ∷ options_from (suc position) choices

-- `value in values`
abbrev pub value_in : Value → List Value → Bool
value_in v [] = false
value_in v (x ∷ xs) = py_eq x v || value_in v xs

unfoldable pub positions_of : ℕ → List Choice → List Value → List String
positions_of position [] values = []
positions_of position (choice ∷ choices) values =
    let rest = positions_of (suc position) choices values in
    if value_in choice.value values then show_nat position ∷ rest else rest

-- `choices[int(position)].value`
abbrev pub position_or_raise : Option ℤ → Result ℤ
position_or_raise none = err (value_error "invalid literal for int()")
position_or_raise (some n) = ok n

unfoldable pub choice_at : List Choice → String → Result Value
choice_at choices position = position_or_raise (parse_int position) then λ n.
    found_or_raise (item_at choices n) then λ choice. ok choice.value

unfoldable pub choices_at : List Choice → List String → Result (List Value)
choices_at choices [] = ok []
choices_at choices (position ∷ positions) =
    choice_at choices position then λ v. choices_at choices positions then λ vs. ok (v ∷ vs)

abbrev pub first_shown : List String → String → Option (Inherited String)
first_shown [] source = none
first_shown (position ∷ positions) source = some (record { value = position; source = source })

abbrev pub shown_choice : List Choice → Option (Inherited Value) → Option (Inherited String)
shown_choice choices none = none
shown_choice choices (some inherited) =
    first_shown (positions_of 0 choices (inherited.value ∷ [])) inherited.source

abbrev pub shown_choices :
    List Choice → Option (Inherited (List Value)) → Option (Inherited (List String))
shown_choices choices none = none
shown_choices choices (some inherited) =
    some (record { value = positions_of 0 choices inherited.value; source = inherited.source })

abbrev pub shown_switch : Option (Inherited Bool) → Option (Inherited String)
shown_switch none = none
shown_switch (some inherited) =
    some (record { value = if inherited.value then "on" else "off"; source = inherited.source })

unfoldable pub switch : String → Switch → Option (Inherited Bool) → Ui Bool
switch step question inherited = do
  chosen ←
      radio_menu
        (record { value = "off"; label = question.off_label }
          ∷ record { value = "on"; label = question.on_label }
          ∷ [])
        (shown_switch inherited) question.description
  pure (chosen == "on")

unfoldable pub choose_one : String → ChooseOne → List Choice → Option (Inherited Value) → Ui Value
choose_one step question choices inherited = do
  chosen ← radio_menu (options_from 0 choices) (shown_choice choices inherited) question.description
  or_raise (choice_at choices chosen)

unfoldable pub choose_many : String → ChooseMany → Option (Inherited (List Value)) → Ui (List Value)
choose_many step question inherited = do
  chosen ←
      checkbox_menu (options_from 0 question.choices) (shown_choices question.choices inherited)
        question.description
  or_raise (choices_at question.choices chosen)

unfoldable pub enter_text : String → EnterText → Option (Inherited String) → Ui String
enter_text step question inherited = text_input inherited true

unfoldable pub keep_secret : String → EnterSecret → String → Ui Bool
keep_secret step question source = do
  kept ← radio_menu secret_options none (question.label <> ": inherited from " <> source <> ".")
  pure (kept == "keep")

unfoldable pub enter_secret : String → EnterSecret → Ui String
enter_secret step question =
    if question.confirm then password_input_with_confirm else text_input none true

unfoldable pub review : List SummaryRow → Ui Bool
review rows = confirm_screen (
    length
      (summary_rows "" (map (λ row. (row.step <> "." <> row.label, row.value, row.source)) rows)))

abbrev pub curses_frontend : SetupFrontend
curses_frontend = record {
  switch = switch;
  choose_one = choose_one;
  choose_many = choose_many;
  enter_text = enter_text;
  keep_secret = keep_secret;
  enter_secret = enter_secret;
  review = review;
}

-- `_setup`, that `run_tui_setup` runs
unfoldable pub run_tui_setup : (Value → String) → Dict SettingValue → Talk (Dict Value)
run_tui_setup str inherited =
    on_screen info_screen talk λ _. run_setup str curses_frontend inherited
