-- ===== src/Setup/Ui/Ends.antt =====
-- What code that talks to the user ends with: a result that satisfies `P`, or an error that satisfies `X`.
use arch_installer.Prelude.{List}
use arch_installer.Errors.{Error, Result, ok, err}
use arch_installer.Setup.Ui.{
  Press, Outcome, waiting, failed, ended, Ui, pure, or_raise, continue, ◌>>=◌,
}

abbrev pub EndsIn : {A : Type 0} → (A → Type 0) → (Error → Type 0) → Outcome A → Type 0
EndsIn P X waiting = Unit
EndsIn P X (failed e) = X e
EndsIn P X (ended a presses) = P a

-- a computed value or its error
abbrev pub GivesIn : {A : Type 0} → (A → Type 0) → (Error → Type 0) → Result A → Type 0
GivesIn P X (ok a) = P a
GivesIn P X (err e) = X e

pub record Gives {A : Type 0} (P : A → Type 0) (X : Error → Type 0) (m : Ui A) : Type 0 where
  pub at : (presses : List Press) → EndsIn P X (m presses)

continue-EndsIn :
    {A B : Type 0} (Q : A → Type 0) (P : B → Type 0) (X : Error → Type 0) (o : Outcome A)
    (f : A → Ui B)
    → EndsIn Q X o
    → ((a : A) → Q a → Gives P X (f a))
    → EndsIn P X (continue o f)
continue-EndsIn Q P X waiting f h k = tt
continue-EndsIn Q P X (failed e) f h k = h
continue-EndsIn Q P X (ended a presses) f h k = (k a h).at presses

or_raise-EndsIn :
    {A : Type 0} (P : A → Type 0) (X : Error → Type 0) (r : Result A) (presses : List Press)
    → GivesIn P X r
    → EndsIn P X (or_raise r presses)
unfolding or_raise
or_raise-EndsIn P X (ok a) presses h = h
or_raise-EndsIn P X (err e) presses h = h

module _ {X : Error → Type 0} where
  pub Gives-bind :
      {A B : Type 0} (Q : A → Type 0) {P : B → Type 0} (m : Ui A) (f : A → Ui B)
      → Gives Q X m
      → ((a : A) → Q a → Gives P X (f a))
      → Gives P X (m >>= f)
  unfolding ◌>>=◌
  Gives-bind Q {P} m f h k = record {
    at = λ presses. continue-EndsIn Q P X (m presses) f (h.at presses) k;
  }

  pub Gives-or_raise :
      {A : Type 0} {P : A → Type 0} (r : Result A) → GivesIn P X r → Gives P X (or_raise r)
  Gives-or_raise {P = P} r h = record { at = λ presses. or_raise-EndsIn P X r presses h }

  pub Gives-pure : {A : Type 0} {P : A → Type 0} (a : A) → P a → Gives P X (pure a)
  unfolding pure
  Gives-pure a h = record { at = λ presses. h }
