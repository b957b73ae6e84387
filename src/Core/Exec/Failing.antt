-- ===== src/Core/Exec/Failing.antt =====
-- How an error ends code, and what runs up to it.
use arch_installer.Prelude.{◌≡◌, refl, List, ◌∷◌}
use arch_installer.Errors.{Error, Result, ok, err}
use arch_installer.Core.Exec.{Machine, Event, Exec, Done, continue, pure, for_each, ◌>>=◌}

continue-err :
    {A B : Type 0} (r : Result A) (f : A → Exec B) (w : Machine) (tr : List Event) (e : Error)
    → r ≡ err e
    → (continue r f w tr) ≡ (err e, tr)
continue-err (err x) f w tr e h = cc
continue-err (ok a) f w tr e h = cc

-- An error of the first part is that of the whole, and nothing more is run.
pub bind-err :
    {A B : Type 0} (m : Exec A) (f : A → Exec B) (w : Machine) (tr : List Event) (e : Error)
    → (m w tr).0 ≡ err e
    → (m >>= f) w tr ≡ (err e, (m w tr).1)
unfolding ◌>>=◌
bind-err m f w tr e h = continue-err (m w tr).0 f w (m w tr).1 e h

pub pure-bind :
    {A B : Type 0} (a : A) (f : A → Exec B) (w : Machine) (tr : List Event)
    → (pure a >>= f) w tr ≡ f a w tr
unfolding pure ◌>>=◌
pure-bind a f w tr = refl

pub for_each-err :
    {A : Type 0} (x : A) (xs : List A) (f : A → Exec Done) (w : Machine) (tr : List Event)
    (e : Error)
    → (f x w tr).0 ≡ err e
    → for_each (x ∷ xs) f w tr ≡ (err e, (f x w tr).1)
unfolding for_each
for_each-err x xs f w tr e h = bind-err (f x) _ w tr e h
