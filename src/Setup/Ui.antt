-- ===== src/Setup/Ui.antt =====
-- Code that talks to the user: it reads key presses one by one and may raise. Each press stands with the
-- number of screen rows when it is read. Where the presses run out, the code still
-- waits, until Ctrl+C interrupts it.
pub mod Ends
use arch_installer.Prelude.{◌≡◌, refl, List, [], ◌∷◌, ℕ}
use arch_installer.Errors.{Error, keyboard_interrupt, Result, ok, err}

pub record Press : Type 0 where
  pub key : ℕ
  pub screen_rows : ℕ

pub data Outcome (A : Type 0) : Type 0 where
  waiting : Outcome A
  failed : Error → Outcome A
  -- the result, and the presses that were not read
  ended : A → List Press → Outcome A

abbrev pub Ui : Type 0 → Type 0
Ui A = List Press → Outcome A

module _ {A : Type 0} where
  -- Ctrl+C, pressed when the presses are all read: it raises KeyboardInterrupt where the code waits
  abbrev pub interrupted : Outcome A → Outcome A
  interrupted waiting = failed (keyboard_interrupt "")
  interrupted (failed e) = failed e
  interrupted (ended a presses) = ended a presses

  unfoldable pub pure : A → Ui A
  pure a presses = ended a presses

  unfoldable pub raise : Error → Ui A
  raise e presses = failed e

  unfoldable pub or_raise : Result A → Ui A
  or_raise (ok a) presses = ended a presses
  or_raise (err e) presses = failed e

module _ {A B : Type 0} where
  abbrev pub continue : Outcome A → (A → Ui B) → Outcome B
  continue waiting f = waiting
  continue (failed e) f = failed e
  continue (ended a presses) f = f a presses

  infixl 5 ◌>>=◌
  unfoldable pub ◌>>=◌ : Ui A → (A → Ui B) → Ui B
  ◌>>=◌ m f presses = continue (m presses) f

-- `window.getch()`
unfoldable pub get_press : Ui Press
get_press [] = waiting
get_press (press ∷ presses) = ended press presses
