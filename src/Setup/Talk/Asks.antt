-- ===== src/Setup/Talk/Asks.antt =====
-- Code of the setup that only asks the machine: every command that it runs is a probe.
use arch_installer.Prelude.{Bool, true, false, List, if◌then◌else◌}
use arch_installer.Core.Exec.{Machine, Event, Exec}
use arch_installer.Core.Exec.Emits.{Emits}
use arch_installer.Core.Exec.Devices.{IsReadOnly}
use arch_installer.Core.Exec.Added.{IsAdded, nothing-IsAdded, IsAdded-twice}
use arch_installer.Setup.Ui.{Press, Outcome, waiting, failed, ended, Ui}
use arch_installer.Setup.Talk.{Talk, on_screen, on_machine, continue, ◌>>=◌}

pub record Asks {A : Type 0} (m : Talk A) : Type 0 where
  pub at :
      (w : Machine) (tr : List Event) (presses : List Press)
      → IsAdded IsReadOnly tr (m w tr presses).1

pub Asks-on_screen : {A : Type 0} (m : Ui A) → Asks (on_screen m)
unfolding on_screen
Asks-on_screen m = record { at = λ w tr presses. nothing-IsAdded tr }

pub Asks-on_machine :
    {A : Type 0} (m : Exec A) → ((w : Machine) → Emits w IsReadOnly m) → Asks (on_machine m)
unfolding on_machine
Asks-on_machine m h = record { at = λ w tr presses. (h w).at tr }

module _ {A B : Type 0} where
  continue-IsAdded :
      (o : Outcome A) (f : A → Talk B) (w : Machine) (tr : List Event)
      → ((a : A) → Asks (f a))
      → IsAdded IsReadOnly tr (continue o f w tr).1
  continue-IsAdded waiting f w tr h = nothing-IsAdded tr
  continue-IsAdded (failed e) f w tr h = nothing-IsAdded tr
  continue-IsAdded (ended a presses) f w tr h = (h a).at w tr presses

  pub Asks-bind : (m : Talk A) (f : A → Talk B) → Asks m → ((a : A) → Asks (f a)) → Asks (m >>= f)
  unfolding ◌>>=◌
  Asks-bind m f h k = record {
    at = λ w tr presses.
        let (o, tr') = m w tr presses in
        IsAdded-twice IsReadOnly tr tr' _ (h.at w tr presses) (continue-IsAdded o f w tr' k);
  }

pub Asks-if : {A : Type 0} (b : Bool) (m n : Talk A) → Asks m → Asks n → Asks (if b then m else n)
Asks-if true m n h k = h
Asks-if false m n h k = k

pub ruleset asks_rules = (Asks-on_screen, Asks-bind, Asks-if)
