-- ===== src/Tui/Entry/Confirmed.antt =====
-- tui/widgets.py: a new password is what was typed twice.
use arch_installer.Prelude.{◌≡◌, String, ◌==◌, true, false, none, List}
use arch_installer.Errors.{Error, keyboard_interrupt}
use arch_installer.Setup.Ui.{Press, Outcome, waiting, failed, ended, Ui}
use arch_installer.Tui.Entry.{text_input}

abbrev pub IsGiven : String → Type 0
IsGiven s = (s == "") ≡ false

abbrev pub IsNoError : Error → Type 0
IsNoError e = ⊥

-- Ctrl+C
abbrev pub IsInterrupt : Error → Type 0
IsInterrupt e = e ≡ keyboard_interrupt ""

-- a text that ended was typed in two entries, one right after the other
abbrev pub IsTypedTwice : Outcome String → Type 0
IsTypedTwice waiting = Unit {0}
IsTypedTwice (failed e) = Unit {0}
IsTypedTwice (ended a rest) =
    (first : List Press) × (second : List Press) × (text_input none true first ≡ ended a second)
    × (text_input none true second ≡ ended a rest)
