-- ===== src/Core/Exec/Leads.antt =====
-- Code between two states of the trace: from any trace that satisfies `P`, code that returns leaves one
-- that satisfies `Q`, and code that raises one that satisfies `X`.
use arch_installer.Prelude.{Bool, true, false, List, [], ◌∷◌, if◌then◌else◌}
use arch_installer.Core.Commands.{command_text}
use arch_installer.Errors.{Error, Result, ok, err}
use arch_installer.Core.Exec.{
  Machine, Invocation, Event, ran, Exec, Done, CommandExecutionResult, conclude, continue, pure,
  run_with, for_each, finally, raise, ◌>>=◌,
}

abbrev pub Ends :
    {A : Type 0}
    → (A → List Event → Type 0)
    → (List Event → Type 0)
    → Result A
    → List Event
    → Type 0
Ends Q X (ok a) tr = Q a tr
Ends Q X (err e) tr = X tr

pub record Leads {A : Type 0} (w : Machine) (P : List Event → Type 0) (m : Exec A)
    (Q : A → List Event → Type 0) (X : List Event → Type 0) : Type 0 where
  pub at : (tr : List Event) → P tr → Ends Q X (m w tr).0 (m w tr).1

-- a test of the result that looks at the trace alone
conclude-Ends :
    (Q X : List Event → Type 0) (r : Result CommandExecutionResult) (new : List Event)
    → Q new
    → X new
    → Ends (λ _. Q) X r new
conclude-Ends Q X (ok a) new q x = q
conclude-Ends Q X (err e) new q x = x

module _ {w : Machine} {X : List Event → Type 0} where
  continue-Ends :
      {A B : Type 0} (R : A → List Event → Type 0) (Q : B → List Event → Type 0) (r : Result A)
      (tr : List Event) (f : A → Exec B)
      → Ends R X r tr
      → ((a : A) → Leads w (R a) (f a) Q X)
      → Ends Q X (continue r f w tr).0 (continue r f w tr).1
  continue-Ends R Q (ok a) tr f h k = (k a).at tr h
  continue-Ends R Q (err e) tr f h k = h

  pub Leads-bind :
      {A B : Type 0} {P : List Event → Type 0} (R : A → List Event → Type 0)
      {Q : B → List Event → Type 0} (m : Exec A) (f : A → Exec B)
      → Leads w P m R X
      → ((a : A) → Leads w (R a) (f a) Q X)
      → Leads w P (m >>= f) Q X
  unfolding ◌>>=◌
  Leads-bind R {Q} m f h k = record {
    at = λ tr p. let (r, tr') = m w tr in continue-Ends R Q r tr' f (h.at tr p) k;
  }

  pub Leads-pure :
      {A : Type 0} {P : List Event → Type 0} (Q : A → List Event → Type 0) (a : A)
      → ((tr : List Event) → P tr → Q a tr)
      → Leads w P (pure a) Q X
  unfolding pure
  Leads-pure Q a h = record { at = h }

  pub Leads-run_with :
      {P Q : List Event → Type 0} (b : Bool) (i : Invocation)
      → ((tr : List Event) → P tr → Q (ran i ∷ tr))
      → ((tr : List Event) → P tr → X (ran i ∷ tr))
      → Leads w P (run_with b i) (λ _. Q) X
  unfolding run_with
  Leads-run_with {P} {Q} b i h k = record {
    at = λ tr p.
        conclude-Ends Q X (conclude (command_text i.command) b (w tr i)) (ran i ∷ tr) (h tr p)
          (k tr p);
  }

  module _ {I : List Event → Type 0} where
    pub Keeps-pure : {A : Type 0} (a : A) → Leads w I (pure a) (λ _. I) X
    unfolding pure
    Keeps-pure a = record { at = λ tr p. p }

    pub Keeps-bind :
        {A B : Type 0} (m : Exec A) (f : A → Exec B)
        → Leads w I m (λ _. I) X
        → ((a : A) → Leads w I (f a) (λ _. I) X)
        → Leads w I (m >>= f) (λ _. I) X
    Keeps-bind m f h k = Leads-bind (λ _. I) m f h k

    pub Keeps-if :
        {A : Type 0} (b : Bool) (m n : Exec A)
        → Leads w I m (λ _. I) X
        → Leads w I n (λ _. I) X
        → Leads w I (if b then m else n) (λ _. I) X
    Keeps-if true m n p q = p
    Keeps-if false m n p q = q

    pub Keeps-for_each :
        {A : Type 0} (xs : List A) (f : A → Exec Done)
        → ((a : A) → Leads w I (f a) (λ _. I) X)
        → Leads w I (for_each xs f) (λ _. I) X
    unfolding for_each
    Keeps-for_each [] f h = Keeps-pure tt
    Keeps-for_each (x ∷ xs) f h = Keeps-bind (f x) _ (h x) (λ _. Keeps-for_each xs f h)

Ends-anyway :
    {A : Type 0} (Q : List Event → Type 0) (r : Result A) (tr : List Event)
    → Q tr
    → Ends (λ _. Q) Q r tr
Ends-anyway Q (ok a) tr q = q
Ends-anyway Q (err e) tr q = q

anyway-Ends :
    {A : Type 0} (Q : List Event → Type 0) (r : Result A) (tr : List Event)
    → Ends (λ _. Q) Q r tr
    → Q tr
anyway-Ends Q (ok a) tr q = q
anyway-Ends Q (err e) tr q = q

-- A clean-up gives its condition whether the body returns or raises, and whether it raises itself.
pub Leads-finally :
    {A : Type 0} {w : Machine} {P Q : List Event → Type 0} (R : List Event → Type 0) (m : Exec A)
    (c : Exec Done)
    → Leads w P m (λ _. R) R
    → Leads w R c (λ _. Q) Q
    → Leads w P (finally m c) (λ _. Q) Q
unfolding finally
Leads-finally {w} {Q} R m c h k = record {
  at = λ tr p.
      let after = anyway-Ends R (m w tr).0 (m w tr).1 (h.at tr p) in
      Ends-anyway Q _ _
        (anyway-Ends Q (c w (m w tr).1).0 (c w (m w tr).1).1 (k.at (m w tr).1 after));
}

pub Leads-raise :
    {A : Type 0} {w : Machine} {P : List Event → Type 0} {Q : A → List Event → Type 0} (e : Error)
    → Leads w P (raise {A = A} e) Q P
unfolding raise
Leads-raise e = record { at = λ tr p. p }

-- Of any code, where nothing is asked.
pub Leads-any :
    {A : Type 0} {w : Machine} {P : List Event → Type 0} (m : Exec A)
    → Leads w P m (λ _ tr. Unit {0}) (λ tr. Unit {0})
Leads-any {w} m = record { at = λ tr p. Ends-anyway (λ tr. Unit {0}) (m w tr).0 (m w tr).1 tt }

pub ruleset keeps_rules = (Keeps-pure, Keeps-bind, Keeps-if, Keeps-for_each)
