-- ===== src/Tui/Menus.antt =====
-- tui/widgets.py: the menus on `run_list`. Titles and help lines are only drawn.
pub mod Chosen
use arch_installer.Prelude.{
  String, ◌<>◌, ◌==◌, join, member, without, Bool, true, false, not, ◌||◌, Option, none, some, List,
  [], ◌∷◌, map, ℕ, suc, eqb, pos, ℤ, length, keep, if◌then◌else◌,
}
use arch_installer.Prelude.Dict
use arch_installer.Prelude.Dict.{Dict}
use arch_installer.Errors.{Result, ok, err, index_error, ◌>>=◌ as ◌then◌}
use arch_installer.Setup.Ui.{Ui, pure, or_raise, ◌>>=◌}
use arch_installer.Setup.Frontend.{Inherited}
use arch_installer.Tui.Keys.{is_enter, key_space, key_tab, key_q}
use arch_installer.Tui.Lists.{item_at, found_or_raise, run_list}

pub record MenuOption : Type 0 where
  pub value : String
  pub label : String

pub record Toggle : Type 0 where
  pub key : String
  pub label : String
  pub inherited : Option (Inherited Bool)

-- `option.value == inherited_value`; None is no option's value
unfoldable pub is_inherited : Option (Inherited String) → MenuOption → Bool
is_inherited none option = false
is_inherited (some inherited) option = option.value == inherited.value

-- the index of the first inherited option, else 0
unfoldable pub start_from : Option (Inherited String) → List MenuOption → ℕ → ℕ
start_from inherited [] index = 0
start_from inherited (option ∷ options) index =
    let rest = start_from inherited options (suc index) in
    if is_inherited inherited option then index else rest

abbrev pub accept_enter : Unit {0} → ℕ → ℤ → Result (Unit {0} × Bool)
accept_enter state key cursor = ok (state, is_enter key)

unfoldable pub radio_menu : List MenuOption → Option (Inherited String) → String → Ui String
radio_menu options inherited description = do
  (state, chosen) ←
      run_list description true (length options) accept_enter tt
        (pos (start_from inherited options 0))
  option ← or_raise (found_or_raise (item_at options chosen))
  pure option.value

-- `checked.symmetric_difference_update({value})`
unfoldable pub toggled : String → List String → List String
toggled value checked = if member value checked then without value checked else value ∷ checked

unfoldable pub check_key : List MenuOption → List String → ℕ → ℤ → Result (List String × Bool)
check_key options checked key cursor =
    if eqb key key_space
    then (found_or_raise (item_at options cursor) then λ option.
        ok (toggled option.value checked, false))
    else ok (checked, is_enter key)

unfoldable pub inherited_values : Option (Inherited (List String)) → List String
inherited_values none = []
inherited_values (some inherited) = inherited.value

unfoldable pub checked_values : List MenuOption → List String → List String
checked_values options checked =
    map (λ option. option.value) (keep (λ option. member option.value checked) options)

unfoldable pub checkbox_menu :
    List MenuOption → Option (Inherited (List String)) → String → Ui (List String)
checkbox_menu options inherited description = do
  (checked, cursor) ←
      run_list description true (length options) (check_key options) (inherited_values inherited)
        (pos 0)
  pure (checked_values options checked)

unfoldable pub inherited_state : Option (Inherited Bool) → Option Bool
inherited_state none = none
inherited_state (some inherited) = some inherited.value

unfoldable pub start_states : List Toggle → Dict (Option Bool) → Dict (Option Bool)
start_states [] states = states
start_states (toggle ∷ toggles) states =
    start_states toggles (Dict.insert toggle.key (inherited_state toggle.inherited) states)

abbrev pub is_true : Option (Option Bool) → Bool
is_true (some (some true)) = true
is_true _ = false

abbrev pub is_unset : Option (Option Bool) → Bool
is_unset (some none) = true
is_unset _ = false

-- `states[key] is True`, of a key that is there
abbrev pub state_is_true : Dict (Option Bool) → String → Bool
state_is_true states key = is_true (Dict.lookup key states)

unfoldable pub unset_labels : Dict (Option Bool) → List Toggle → List String
unset_labels states toggles =
    map (λ toggle. toggle.label) (keep (λ toggle. is_unset (Dict.lookup toggle.key states)) toggles)

abbrev pub message_for : List String → String
message_for [] = ""
message_for (label ∷ labels) = "Set every feature first: " <> join ", " (label ∷ labels)

abbrev pub is_empty : List String → Bool
is_empty [] = true
is_empty (label ∷ labels) = false

-- the states, and the message below the list
unfoldable pub toggle_key :
    List Toggle
    → Dict (Option Bool) × String
    → ℕ
    → ℤ
    → Result ((Dict (Option Bool) × String) × Bool)
unfolding unset_labels
toggle_key toggles (states, message) key cursor =
    if eqb key key_space || is_enter key
    then (found_or_raise (item_at toggles cursor) then λ toggle.
        ok (
          (Dict.insert toggle.key (some (not (state_is_true states toggle.key))) states, ""),
          false,
        ))
    else if eqb key key_tab
    then ok (
      (states, message_for (unset_labels states toggles)),
      is_empty (unset_labels states toggles),
    )
    else ok ((states, message), false)

unfoldable pub chosen_states : List Toggle → Dict (Option Bool) → Dict Bool → Dict Bool
chosen_states [] states chosen = chosen
chosen_states (toggle ∷ toggles) states chosen =
    chosen_states toggles states (Dict.insert toggle.key (state_is_true states toggle.key) chosen)

unfoldable pub toggle_menu : List Toggle → String → Ui (Dict Bool)
toggle_menu toggles description = do
  ((states, message), cursor) ←
      run_list description true (length toggles) (toggle_key toggles) (start_states toggles [], "")
        (pos 0)
  pure (chosen_states toggles states [])

-- `y` or `Y`, then also `n`, `N` and `q`
abbrev pub is_yes : ℕ → Bool
is_yes key = eqb key 121 || eqb key 89

unfoldable pub confirm_key : Bool → ℕ → ℤ → Result (Bool × Bool)
confirm_key confirmed key cursor =
    ok (is_yes key, is_yes key || (eqb key 110 || eqb key 78 || eqb key key_q))

-- `row_count` is the number of rows of the summary
unfoldable pub confirm_screen : ℕ → Ui Bool
confirm_screen row_count = do
  (confirmed, cursor) ← run_list "" false row_count confirm_key false (pos 0)
  pure confirmed
