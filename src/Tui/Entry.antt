-- ===== src/Tui/Entry.antt =====
-- tui/widgets.py: the text field and the password loop.
pub mod Characters
pub mod Editing
pub mod Confirmed
mod Fuel
pub mod Ending
use arch_installer.Prelude.{
  String, ◌<>◌, ◌==◌, printable, Bool, true, false, not, ◌&&◌, Option, none, some, List, [], ◌∷◌, ℕ,
  zero, suc, eqb, length, if◌then◌else◌,
}
use arch_installer.Setup.Ui.{Press, Outcome, waiting, ended, Ui, pure, get_press, ◌>>=◌}
use arch_installer.Setup.Frontend.{Inherited}
use arch_installer.Tui.Keys.{key_escape, is_enter, is_backspace, is_printable}

pub record TextEntry : Type 0 where
  pub inherited : Option (Inherited String)
  pub required : Bool
  pub typed : String
  pub error : String

-- `s[:-1]`
unfoldable pub without_last : String → String
without_last String.[] = ""
without_last (String.◌∷◌ c s) =
    let rest = without_last s in if s == "" then "" else String.◌∷◌ c rest

unfoldable pub inherited_text : Option (Inherited String) → String
inherited_text none = ""
inherited_text (some inherited) = inherited.value

-- `_submit`: the entry with its error, and the value
unfoldable pub submit : TextEntry → TextEntry × Option String
submit entry =
    let value = if entry.typed == "" then inherited_text entry.inherited else entry.typed in
    if value == "" && entry.required
    then (
      record {
        inherited = entry.inherited;
        required = entry.required;
        typed = entry.typed;
        error = "This field is required.";
      },
      none,
    )
    else (entry, some value)

-- an edit clears the error
abbrev pub edited : TextEntry → String → TextEntry × Option String
edited entry typed = (
  record { inherited = entry.inherited; required = entry.required; typed = typed; error = "" },
  none,
)

unfoldable pub press_key : TextEntry → ℕ → TextEntry × Option String
unfolding submit
press_key entry key =
    if is_enter key
    then submit entry
    else if eqb key key_escape
    then edited entry ""
    else if is_backspace key
    then edited entry (without_last entry.typed)
    else if is_printable key
    then edited entry (entry.typed <> printable key)
    else (entry, none)

abbrev pub submitted_or : Option String → List Press → Outcome String → Outcome String
submitted_or none presses rest = rest
submitted_or (some value) presses rest = ended value presses

unfoldable pub entry_loop : TextEntry → Ui String
entry_loop entry [] = waiting
entry_loop entry (press ∷ presses) =
    let (entry', submitted) = press_key entry press.key in
    submitted_or submitted presses (entry_loop entry' presses)

unfoldable pub text_input : Option (Inherited String) → Bool → Ui String
unfolding entry_loop
text_input inherited required =
    entry_loop (record { inherited = inherited; required = required; typed = ""; error = "" })

-- each round reads a press at least, so that the number of presses is fuel enough
unfoldable pub password_loop : ℕ → Ui String
password_loop zero = λ presses. waiting
password_loop (suc fuel) = do
  password ← text_input none true
  confirm ← text_input none true
  let retry = password_loop fuel
  if password == confirm then pure password else (get_press >>= λ press. retry)

unfoldable pub password_input_with_confirm : Ui String
unfolding password_loop
password_input_with_confirm presses = password_loop (suc (length presses)) presses

unfoldable pub info_screen : Ui (Unit {0})
info_screen = do press ← get_press; pure tt
