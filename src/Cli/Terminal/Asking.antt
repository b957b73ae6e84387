-- ===== src/Cli/Terminal/Asking.antt =====
-- cli.py: what talks to the user before an installation only asks the machine: every command that it runs
-- is a probe.
use arch_installer.Prelude.{
  String, Bool, true, false, not, ◌==◌, ◌||◌, Option, none, some, List, [], ◌∷◌, if◌then◌else◌,
}
use arch_installer.Errors.{Result, ok, err}
use arch_installer.Core.Exec.{Machine, Event}
use arch_installer.Core.Exec.Added.{IsAdded, nothing-IsAdded, IsAdded-twice}
use arch_installer.Core.Exec.Devices.{IsReadOnly}
use arch_installer.Setup.Ui
use arch_installer.Setup.Talk.{Talk}
use arch_installer.Setup.Talk.Asks.{Asks}
use arch_installer.Cli.Terminal.{
  Entry, typed, end_of_input, interrupt, Console, Outcome, waiting, failed, ended, Terminal, pure,
  or_raise, result_outcome, ui_outcome, in_setup, continue, ◌>>=◌,
}
use arch_installer.Cli.Prompts.{ask_rounds, ask_secret}

abbrev pub trace_of : {A : Type 0} → Outcome A → List Event
trace_of (waiting tr) = tr
trace_of (failed e tr) = tr
trace_of (ended a tr console) = tr

pub record Probing {A : Type 0} (m : Terminal A) : Type 0 where
  pub at : (tr : List Event) (console : Console) → IsAdded IsReadOnly tr (trace_of (m tr console))

result-IsAdded :
    {A : Type 0} (r : Result A) (tr : List Event) (console : Console)
    → IsAdded IsReadOnly tr (trace_of (result_outcome r tr console))
result-IsAdded (ok a) tr console = nothing-IsAdded tr
result-IsAdded (err e) tr console = nothing-IsAdded tr

pub Probing-or_raise : {A : Type 0} (r : Result A) → Probing (or_raise r)
Probing-or_raise r = record { at = result-IsAdded r }

pub Probing-pure : {A : Type 0} (a : A) → Probing (pure a)
Probing-pure a = record { at = λ tr console. nothing-IsAdded tr }

pub Probing-if :
    {A : Type 0} (b : Bool) (m n : Terminal A)
    → Probing m
    → Probing n
    → Probing (if b then m else n)
Probing-if true m n h k = h
Probing-if false m n h k = k

module _ {A B : Type 0} where
  continue-IsAdded :
      (o : Outcome A) (f : A → Terminal B)
      → ((a : A) → Probing (f a))
      → IsAdded IsReadOnly (trace_of o) (trace_of (continue o f))
  continue-IsAdded (waiting tr) f h = nothing-IsAdded tr
  continue-IsAdded (failed e tr) f h = nothing-IsAdded tr
  continue-IsAdded (ended a tr console) f h = (h a).at tr console

  pub Probing-bind :
      (m : Terminal A) (f : A → Terminal B)
      → Probing m
      → ((a : A) → Probing (f a))
      → Probing (m >>= f)
  unfolding ◌>>=◌
  Probing-bind m f h k = record {
    at = λ tr console.
        IsAdded-twice IsReadOnly tr (trace_of (m tr console)) _ (h.at tr console)
          (continue-IsAdded (m tr console) f k);
  }

trace_of-if :
    {A : Type 0} (b : Bool) (o p : Outcome A) (tr : List Event)
    → IsAdded IsReadOnly tr (trace_of o)
    → IsAdded IsReadOnly tr (trace_of p)
    → IsAdded IsReadOnly tr (trace_of (if b then o else p))
trace_of-if true o p tr h k = h
trace_of-if false o p tr h k = k

rounds-IsAdded :
    (label : String) (confirm : Bool) (tr : List Event) (console : Console) (first : Option String)
    (entries : List Entry)
    → IsAdded IsReadOnly tr (trace_of (ask_rounds label confirm tr console first entries))
unfolding ask_rounds
rounds-IsAdded label confirm tr console first [] = nothing-IsAdded tr
rounds-IsAdded label confirm tr console first (end_of_input ∷ entries) = nothing-IsAdded tr
rounds-IsAdded label confirm tr console first (interrupt ∷ entries) = nothing-IsAdded tr
rounds-IsAdded label confirm tr console none (typed secret ∷ entries) =
    trace_of-if (not confirm || secret == "")
      (ended secret tr (record console { entries = entries }))
      (ask_rounds label confirm tr console (some secret) entries) tr (nothing-IsAdded tr)
      (rounds-IsAdded label confirm tr console (some secret) entries)
rounds-IsAdded label confirm tr console (some secret) (typed repeated ∷ entries) =
    trace_of-if (repeated == secret) (ended secret tr (record console { entries = entries }))
      (ask_rounds label confirm tr console none entries) tr (nothing-IsAdded tr)
      (rounds-IsAdded label confirm tr console none entries)

pub Probing-ask_secret : (label : String) (confirm : Bool) → Probing (ask_secret label confirm)
unfolding ask_secret
Probing-ask_secret label confirm = record {
  at = λ tr console. rounds-IsAdded label confirm tr console none console.entries;
}

ui-trace :
    {A : Type 0} (console : Console) (tr tr' : List Event) (o : Ui.Outcome A)
    → IsAdded IsReadOnly tr tr'
    → IsAdded IsReadOnly tr (trace_of (ui_outcome console tr' o))
ui-trace console tr tr' Ui.waiting h = h
ui-trace console tr tr' (Ui.failed e) h = h
ui-trace console tr tr' (Ui.ended a presses) h = h

pub Probing-in_setup : {A : Type 0} (w : Machine) (m : Talk A) → Asks m → Probing (in_setup w m)
Probing-in_setup w m h = record {
  at = λ tr console.
      let (o, tr') = m w tr console.presses in
      ui-trace console tr tr' _ (h.at w tr console.presses);
}
