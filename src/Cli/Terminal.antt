-- ===== src/Cli/Terminal.antt =====
-- cli.py: code that talks to the user, on the console before the interactive setup and in it. The
-- console holds what is typed at `getpass` prompts and the key presses of the setup. The trace holds the commands
-- that the setup runs on the machine, newest first.
pub mod Asking
use arch_installer.Prelude.{List, String, Bool, if◌then◌else◌}
use arch_installer.Errors.{Error, Result, ok, err}
use arch_installer.Setup.Ui
use arch_installer.Setup.Ui.{Press, interrupted}
use arch_installer.Setup.Talk.{Talk}
use arch_installer.Core.Exec.{Machine, Event}

-- what answers a prompt: a line, the end of the input, or Ctrl-C
pub data Entry : Type 0 where
  typed : String → Entry
  end_of_input interrupt : Entry

pub record Console : Type 0 where
  pub entries : List Entry
  pub presses : List Press
  -- whether Ctrl+C is pressed in the setup when the presses are all read
  pub interrupts : Bool

-- each outcome with the trace
pub data Outcome (A : Type 0) : Type 0 where
  waiting : List Event → Outcome A
  failed : Error → List Event → Outcome A
  -- the result, and what was not read
  ended : A → List Event → Console → Outcome A

abbrev pub Terminal : Type 0 → Type 0
Terminal A = List Event → Console → Outcome A

module _ {A : Type 0} where
  abbrev pub pure : A → Terminal A
  pure a tr console = ended a tr console

  abbrev pub result_outcome : Result A → List Event → Console → Outcome A
  result_outcome (ok a) tr console = ended a tr console
  result_outcome (err e) tr console = failed e tr

  abbrev pub or_raise : Result A → Terminal A
  or_raise r tr console = result_outcome r tr console

  abbrev pub ui_outcome : Console → List Event → Ui.Outcome A → Outcome A
  ui_outcome console tr Ui.waiting = waiting tr
  ui_outcome console tr (Ui.failed e) = failed e tr
  ui_outcome console tr (Ui.ended a presses) =
      ended a tr
        (record { entries = console.entries; presses = presses; interrupts = console.interrupts })

  -- the interactive setup, on the given machine
  abbrev pub in_setup : Machine → Talk A → Terminal A
  in_setup w m tr console =
      let (o, tr') = m w tr console.presses in
      ui_outcome console tr' (if console.interrupts then interrupted o else o)

module _ {A B : Type 0} where
  abbrev pub continue : Outcome A → (A → Terminal B) → Outcome B
  continue (waiting tr) f = waiting tr
  continue (failed e tr) f = failed e tr
  continue (ended a tr console) f = f a tr console

  infixl 5 ◌>>=◌
  unfoldable pub ◌>>=◌ : Terminal A → (A → Terminal B) → Terminal B
  ◌>>=◌ m f tr console = continue (m tr console) f
