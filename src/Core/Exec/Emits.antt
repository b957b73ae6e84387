-- ===== src/Core/Exec/Emits.antt =====
-- What code adds to the trace on a given machine: one rule for each way to build code, for `search`.
use mathlib.Core.List.{append_assoc}
use arch_installer.Prelude.{
  ◌≡◌, refl, sym, ap, subst, ◌∙◌, String, Bool, true, false, List, [], ◌∷◌, ◌++◌, All, All-append,
  ℕ, arith, if◌then◌else◌,
}
use arch_installer.Errors.{ExitCode, Error, Result, ok, err}
use arch_installer.Core.Commands.{Command, command_text}
use arch_installer.Core.Exec.{
  Machine, Reply, completed, not_found, is_zero, Invocation, plain, Event, ran, slept, Exec, Done,
  continue, conclude, success, CommandExecutionResult, pure, raise, run_with, sleep, for_each,
  finally, succeeds, ◌>>=◌,
}

ok_injective : {A : Type 0} (a b : A) → ok a ≡ ok b → a ≡ b
ok_injective a b e = cc

-- What `m` adds to any trace on `w`, whether it returns or raises: events that satisfy `P`.
pub record Emits {A : Type 0} (w : Machine) (P : Event → Type 0) (m : Exec A) : Type 0 where
  pub at : (tr : List Event) → (new : List Event) × ((m w tr).1 ≡ new ++ tr) × All P new

-- What `m` returns on `w`, if it does not raise.
pub record Yields {A : Type 0} (w : Machine) (Q : A → Type 0) (m : Exec A) : Type 0 where
  pub at : (tr : List Event) (a : A) → (m w tr).0 ≡ ok a → Q a

module _ {w : Machine} {P : Event → Type 0} where
  pub Emits-pure : {A : Type 0} (a : A) → Emits w P (pure a)
  unfolding pure
  Emits-pure a = record { at = λ tr. ([], refl, tt) }

  pub Emits-raise : {A : Type 0} (e : Error) → Emits w P (raise {A = A} e)
  unfolding raise
  Emits-raise e = record { at = λ tr. ([], refl, tt) }

  pub Emits-run_with : (b : Bool) (i : Invocation) → P (ran i) → Emits w P (run_with b i)
  unfolding run_with
  Emits-run_with b i p = record { at = λ tr. (ran i ∷ [], refl, (p, tt)) }

  pub Emits-sleep : (n : ℕ) → P (slept n) → Emits w P (sleep n)
  unfolding sleep
  Emits-sleep n p = record { at = λ tr. (slept n ∷ [], refl, (p, tt)) }

  pub Emits-if :
      {A : Type 0} (b : Bool) (m n : Exec A)
      → Emits w P m
      → Emits w P n
      → Emits w P (if b then m else n)
  Emits-if true m n p q = p
  Emits-if false m n p q = q

  continue-Emits :
      {A B : Type 0} (r : Result A) (f : A → Exec B)
      → ((a : A) → r ≡ ok a → Emits w P (f a))
      → Emits w P (continue r f)
  continue-Emits (ok a) f h = h a refl
  continue-Emits (err e) f h = record { at = λ tr. ([], refl, tt) }

  -- the rest may use what is known of the value that it is given
  pub Emits-bind-Yields :
      {A B : Type 0} (Q : A → Type 0) (m : Exec A) (f : A → Exec B)
      → Emits w P m
      → Yields w Q m
      → ((a : A) → Q a → Emits w P (f a))
      → Emits w P (m >>= f)
  unfolding ◌>>=◌
  Emits-bind-Yields Q m f h y k = record {
    at = λ tr.
        let (r, tr') = m w tr in
        let (new, e, p) = h.at tr in
        let (new', e', p') = (continue-Emits r f (λ a q. k a (y.at tr a q))).at tr' in
        (
          new' ++ new,
          e' ∙ ap (λ t. new' ++ t) e ∙ sym (append_assoc new' new tr),
          All-append P new' new p' p,
        );
  }

  pub Emits-bind :
      {A B : Type 0} (m : Exec A) (f : A → Exec B)
      → Emits w P m
      → ((a : A) → Emits w P (f a))
      → Emits w P (m >>= f)
  Emits-bind m f h k =
      Emits-bind-Yields (λ _. Unit {0}) m f h (record { at = λ tr a e. tt }) (λ a _. k a)

  pub Emits-for_each :
      {A : Type 0} (xs : List A) (f : A → Exec Done)
      → ((a : A) → Emits w P (f a))
      → Emits w P (for_each xs f)
  unfolding for_each
  Emits-for_each [] f h = Emits-pure tt
  Emits-for_each (x ∷ xs) f h = Emits-bind (f x) _ (h x) (λ _. Emits-for_each xs f h)

  pub Emits-each :
      {A : Type 0} (xs : List A) (f : A → Exec Done)
      → All (λ x. Emits w P (f x)) xs
      → Emits w P (for_each xs f)
  unfolding for_each
  Emits-each [] f h = Emits-pure tt
  Emits-each (x ∷ xs) f (h, hs) = Emits-bind (f x) _ h (λ _. Emits-each xs f hs)

  pub Emits-finally :
      {A : Type 0} (m : Exec A) (c : Exec Done)
      → Emits w P m
      → Emits w P c
      → Emits w P (finally m c)
  unfolding finally
  Emits-finally m c h k = record {
    at = λ tr.
        let (r, tr') = m w tr in
        let (new, e, p) = h.at tr in
        let (new', e', p') = k.at tr' in
        (
          new' ++ new,
          e' ∙ ap (λ t. new' ++ t) e ∙ sym (append_assoc new' new tr),
          All-append P new' new p' p,
        );
  }

All-weaken :
    (P Q : Event → Type 0) (h : (e : Event) → P e → Q e) (es : List Event) → All P es → All Q es
All-weaken P Q h [] p = tt
All-weaken P Q h (e ∷ es) p = (h e p.0, All-weaken P Q h es p.1)

-- A condition may be weakened.
pub Emits-weaken :
    {A : Type 0} {w : Machine} (P : Event → Type 0) {Q : Event → Type 0} (m : Exec A)
    → ((e : Event) → P e → Q e)
    → Emits w P m
    → Emits w Q m
Emits-weaken P {Q} m h k = record {
  at = λ tr. let (new, e, p) = k.at tr in (new, e, All-weaken P Q h new p);
}

pub ruleset emits_rules = (
  Emits-pure, Emits-raise, Emits-run_with, Emits-sleep, Emits-if, Emits-bind, Emits-for_each,
  Emits-finally,
)

-- The command exits with status 0.
abbrev pub replied_zero : Reply → Bool
replied_zero (completed code out problem) = is_zero code
replied_zero (not_found reason) = false

-- On `w` the command exits with status 0 whenever it is run.
abbrev pub Succeeds : Machine → Invocation → Type 0
Succeeds w i = (tr : List Event) → replied_zero (w tr i) ≡ true

module _ {w : Machine} where
  pub Yields-pure : {A : Type 0} {Q : A → Type 0} (a : A) → Q a → Yields w Q (pure a)
  unfolding pure
  Yields-pure {A} {Q} a q = record { at = λ tr b e. subst Q (ok_injective a b e) q }

  continue-Yields :
      {A B : Type 0} (R : B → Type 0) (r : Result A) (f : A → Exec B) (tr : List Event) (b : B)
      → ((a : A) → r ≡ ok a → Yields w R (f a))
      → (continue r f w tr).0 ≡ ok b
      → R b
  continue-Yields R (ok a) f tr b h e = (h a refl).at tr b e
  continue-Yields R (err x) f tr b h e = cc

  pub Yields-bind :
      {A B : Type 0} (Q : A → Type 0) {R : B → Type 0} (m : Exec A) (f : A → Exec B)
      → Yields w Q m
      → ((a : A) → Q a → Yields w R (f a))
      → Yields w R (m >>= f)
  unfolding ◌>>=◌
  Yields-bind Q {R} m f y k = record {
    at =
        λ tr b e. let (r, tr') = m w tr in continue-Yields R r f tr' b (λ a q. k a (y.at tr a q)) e;
  }

succeeded_conclude :
    (w : Machine) (text : String) (reply : Reply) (tr : List Event) (b : Bool)
    → replied_zero reply ≡ true
    → (continue (conclude text false reply) (λ r. pure (success r)) w tr).0 ≡ ok b
    → b ≡ true
unfolding conclude pure
succeeded_conclude w text (completed code out problem) tr b z h = ground arith
succeeded_conclude w text (not_found reason) tr b z h = cc

-- A command that exits with status 0 whenever it is run is found to succeed.
pub Yields-succeeded :
    {w : Machine} (i : Invocation)
    → Succeeds w i
    → Yields w (λ b. b ≡ true) (run_with false i >>= λ r. pure (success r))
unfolding ◌>>=◌ run_with
Yields-succeeded {w} i h = record {
  at = λ tr b e. succeeded_conclude w (command_text i.command) (w tr i) _ b (h tr) e;
}

pub Yields-succeeds :
    {w : Machine} (c : Command) → Succeeds w (plain c) → Yields w (λ b. b ≡ true) (succeeds c)
Yields-succeeds c h = Yields-succeeded (plain c) h

-- What the command prints, if it can be run at all.
abbrev pub Prints : Machine → Invocation → (String → Bool) → Type 0
Prints w i test =
    (tr : List Event) (code : ExitCode) (out problem : String)
    → w tr i ≡ completed code out problem
    → test out ≡ true

stdout-conclude :
    (text : String) (b : Bool) (reply : Reply) (test : String → Bool) (r : CommandExecutionResult)
    → ((code : ExitCode) (out problem : String)
        → reply ≡ completed code out problem
        → test out ≡ true)
    → conclude text b reply ≡ ok r
    → test r.stdout ≡ true
unfolding conclude
stdout-conclude text b (completed code out problem) test r h e =
    ground (arith, h code out problem refl)
stdout-conclude text b (not_found reason) test r h e = cc

pub Yields-run_with :
    {w : Machine} (b : Bool) (i : Invocation) (test : String → Bool)
    → Prints w i test
    → Yields w (λ r. test r.stdout ≡ true) (run_with b i)
unfolding run_with
Yields-run_with b i test h = record { at = λ tr r e. stdout-conclude _ b _ test r (h tr) e }
