-- ===== src/Tests/Screens.antt =====
-- The widgets at concrete key presses.
use arch_installer.Prelude.{
  ◌≡◌, refl, arith, String, Bool, true, false, Option, none, some, List, [], ◌∷◌, ◌++◌, ℕ, ◌+◌, ◌<◌,
  ◌≤◌, pos, ◌+ℤ◌, All,
}
use arch_installer.Core.Exec.Leads.{Leads}
use arch_installer.Executors.Recovery.{execute}
use arch_installer.Executors.Recovery.Cleanup.{IsKeyGone, execute-IsKeyGone}
use arch_installer.Setup.Ui.{Press, Outcome, waiting, failed, ended}
use arch_installer.Setup.Ui.Ends.{Gives}
use arch_installer.Setup.Frontend.{Inherited}
use arch_installer.Tui.Keys.{help_row_offset}
use arch_installer.Tui.Lists.{scroll, visible_rows, first_row}
use arch_installer.Tui.Lists.Cursor.{IsQuit}
use arch_installer.Tui.Lists.Layout.{cursor_is_shown}
use arch_installer.Tui.Menus.{MenuOption, radio_menu, checkbox_menu}
use arch_installer.Tui.Menus.Chosen.{IsValueOf, radio_menu-IsValueOf, checkbox_menu-AreValuesOf}
use arch_installer.Tui.Entry.{text_input, password_input_with_confirm}
use arch_installer.Tui.Entry.Editing.{reference, text_input-reference}
use arch_installer.Tui.Entry.Ending.{HasEnded, text_input-HasEnded}
use arch_installer.Tests.Fixtures.{sample_config, quiet}

abbrev press : ℕ → Press
press key = record { key = key; screen_rows = 24 }

abbrev keys : List ℕ → List Press
keys [] = []
keys (key ∷ rest) = press key ∷ keys rest

abbrev off_option : MenuOption
off_option = record { value = "off"; label = "Off" }

abbrev on_option : MenuOption
on_option = record { value = "on"; label = "On" }

abbrev inherited_on : Option (Inherited String)
inherited_on = some (record { value = "on"; source = "config.yaml" })

execute-IsKeyGone_example :
    Leads quiet (IsKeyGone quiet) (execute sample_config) (λ _. IsKeyGone quiet) (IsKeyGone quiet)
execute-IsKeyGone_example = execute-IsKeyGone quiet sample_config

cursor_is_shown_example :
    (scroll true (visible_rows "" 24) (pos 30) ≤ 30)
    × (30 < scroll true (visible_rows "" 24) (pos 30) + visible_rows "" 24)
    × (first_row "" + help_row_offset + 3 ≤ 24
        → first_row "" + visible_rows "" 24 + help_row_offset + 2 ≤ 24)
cursor_is_shown_example = cursor_is_shown "" 24 30

radio_menu-IsValueOf_example :
    Gives
      (IsValueOf (off_option ∷ on_option ∷ []))
      IsQuit
      (radio_menu (off_option ∷ on_option ∷ []) inherited_on "")
radio_menu-IsValueOf_example = radio_menu-IsValueOf off_option (on_option ∷ []) inherited_on ""

checkbox_menu-AreValuesOf_example :
    Gives
      (All (IsValueOf (off_option ∷ on_option ∷ [])))
      IsQuit
      (checkbox_menu (off_option ∷ on_option ∷ []) none "")
checkbox_menu-AreValuesOf_example = checkbox_menu-AreValuesOf off_option (on_option ∷ []) none ""

text_input-reference_example :
    text_input inherited_on true (keys (104 ∷ 105 ∷ 127 ∷ 10 ∷ []))
    ≡ reference inherited_on true [] (keys (104 ∷ 105 ∷ 127 ∷ 10 ∷ []))
text_input-reference_example =
    text_input-reference inherited_on true (keys (104 ∷ 105 ∷ 127 ∷ 10 ∷ []))

text_input-HasEnded_example :
    HasEnded (text_input none true (keys (10 ∷ 27 ∷ []) ++ (press 104 ∷ press 10 ∷ [])))
text_input-HasEnded_example =
    text_input-HasEnded none true (press 104) (press 10) refl refl (keys (10 ∷ 27 ∷ []))

screens :
    (radio_menu (off_option ∷ on_option ∷ []) inherited_on "" (keys (259 ∷ 13 ∷ []))
      ≡ ended "off" [])
    × (checkbox_menu (off_option ∷ on_option ∷ []) none "" (keys (258 ∷ 258 ∷ 32 ∷ 10 ∷ 1 ∷ []))
        ≡ ended ("on" ∷ []) (keys (1 ∷ [])))
    × (text_input inherited_on true (keys (104 ∷ 105 ∷ 127 ∷ 10 ∷ [])) ≡ ended "h" [])
    × (text_input inherited_on true (keys (104 ∷ 27 ∷ 10 ∷ [])) ≡ ended "on" [])
    × (password_input_with_confirm (keys (104 ∷ 10 ∷ 105 ∷ 10 ∷ 1 ∷ 104 ∷ 10 ∷ 104 ∷ 10 ∷ []))
        ≡ ended "h" [])
unfolding radio_menu checkbox_menu text_input password_input_with_confirm
    arch_installer.Setup.Ui.◌>>=◌ arch_installer.Setup.Ui.pure arch_installer.Setup.Ui.or_raise
    arch_installer.Tui.Lists.run_list arch_installer.Tui.Lists.moved
    arch_installer.Tui.Lists.last_position arch_installer.Tui.Lists.item_at
    arch_installer.Tui.Lists.found_or_raise arch_installer.Tui.Menus.start_from
    arch_installer.Tui.Menus.is_inherited arch_installer.Tui.Menus.check_key
    arch_installer.Tui.Menus.toggled arch_installer.Tui.Menus.inherited_values
    arch_installer.Tui.Menus.checked_values arch_installer.Tui.Lists.visible_rows ◌+ℤ◌
    arch_installer.Tui.Entry.without_last arch_installer.Tui.Entry.press_key
    arch_installer.Prelude.printable arch_installer.Tui.Entry.inherited_text
    arch_installer.Setup.Ui.get_press
screens = (refl, refl, refl, refl, refl)
