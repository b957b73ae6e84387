-- ===== src/Setup/Talk.antt =====
-- Code of the interactive setup: it reads key presses, runs commands on the machine, and may raise. The
-- trace holds what was run, newest first, also where the code waits or has raised.
pub mod Asks
use arch_installer.Prelude.{List}
use arch_installer.Errors.{Error, Result, ok, err}
use arch_installer.Core.Exec.{Machine, Event, Exec}
use arch_installer.Setup.Ui
use arch_installer.Setup.Ui.{Press, Outcome, waiting, failed, ended, Ui}

abbrev pub Talk : Type 0 → Type 0
Talk A = Machine → List Event → List Press → Outcome A × List Event

module _ {A : Type 0} where
  unfoldable pub on_screen : Ui A → Talk A
  on_screen m w tr presses = (m presses, tr)

  abbrev pub result_outcome : List Press → Result A → Outcome A
  result_outcome presses (ok a) = ended a presses
  result_outcome presses (err e) = failed e

  unfoldable pub on_machine : Exec A → Talk A
  on_machine m w tr presses = let (r, tr') = m w tr in (result_outcome presses r, tr')

  abbrev pub pure : A → Talk A
  pure a = on_screen (Ui.pure a)

  abbrev pub raise : Error → Talk A
  raise e = on_screen (Ui.raise e)

  abbrev pub or_raise : Result A → Talk A
  or_raise r = on_screen (Ui.or_raise r)

module _ {A B : Type 0} where
  abbrev pub continue : Outcome A → (A → Talk B) → Machine → List Event → Outcome B × List Event
  continue waiting f w tr = (waiting, tr)
  continue (failed e) f w tr = (failed e, tr)
  continue (ended a presses) f w tr = f a w tr presses

  infixl 5 ◌>>=◌
  unfoldable pub ◌>>=◌ : Talk A → (A → Talk B) → Talk B
  ◌>>=◌ m f w tr presses = let (o, tr') = m w tr presses in continue o f w tr'
