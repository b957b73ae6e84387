-- ===== src/Core/Exec/Held.antt =====
-- Something that commands take and release, such as a volume that is opened: whether it is left taken.
use arch_installer.Prelude.{
  ◌≡◌, refl, String, Bool, true, false, Bool-cases, inl, inr, Option, none, some, List, [], ◌∷◌,
  if◌then◌else◌,
}
use arch_installer.Errors.{ExitCode}
use arch_installer.Core.Commands.{Command, command_text}
use arch_installer.Core.Exec.{
  Machine, Event, ran, slept, Invocation, Reply, completed, not_found, Exec, Done, conclude,
  CommandExecutionResult, success, is_zero, pure, run_with,
}
use arch_installer.Core.Exec.Emits.{replied_zero, Succeeds}
use arch_installer.Core.Exec.Leads.{Ends, Leads, Leads-run_with, Leads-pure}

abbrev or_before : Option Bool → Bool → Bool
or_before (some b) before = b
or_before none before = before

before-none : (o : Option Bool) (b : Bool) → o ≡ none → b ≡ false → or_before o b ≡ false
before-none none b e h = h
before-none (some c) b e h = cc

-- `event` tells a command that takes the thing, with its reply, and one that releases it.
module _ (event : Reply → Command → Option Bool) (w : Machine) where
  -- It was taken and no attempt made to release it since.
  abbrev pub is_held : List Event → Bool
  is_held [] = false
  is_held (ran i ∷ tr) = or_before (event (w tr i) i.command) (is_held tr)
  is_held (slept n ∷ tr) = is_held tr

  abbrev pub IsReleased : List Event → Type 0
  IsReleased tr = is_held tr ≡ false

-- Every command can be started, whatever it then replies.
abbrev pub Starts : Machine → Type 0
Starts w =
    (tr : List Event) (i : Invocation)
    → (code : ExitCode) × (out : String) × (problem : String) × (w tr i
        ≡ completed code out problem)

abbrev pub Any : List Event → Type 0
Any tr = Unit {0}

pub stronger :
    {A : Type 0} {w : Machine} {P P' X : List Event → Type 0} {Q : A → List Event → Type 0}
    (m : Exec A)
    → ((tr : List Event) → P tr → P' tr)
    → Leads w P' m Q X
    → Leads w P m Q X
stronger m f h = record { at = λ tr p. h.at tr (f tr p) }

-- an error, unless the test holds
pub or_error :
    {w : Machine} {P X : List Event → Type 0} (b : Bool) (n : Exec Done)
    → (b ≡ false → Leads w P n (λ _. Any) X)
    → Leads w P (if b then pure tt else n) (λ _. Any) X
or_error true n h = Leads-pure (λ _. Any) tt (λ tr p. tt)
or_error false n h = h refl

attempted-Ends :
    (Q : CommandExecutionResult → List Event → Type 0) (X : List Event → Type 0) (t : String)
    (code : ExitCode) (out problem : String) (new : List Event)
    → ((r : CommandExecutionResult) → success r ≡ is_zero code → Q r new)
    → Ends Q X (conclude t false (completed code out problem)) new
unfolding conclude
attempted-Ends Q X t code out problem new h = elim (Bool-cases (is_zero code)) [
  | inl zero ↦ rw zero (h _ refl)
  | inr nonzero ↦ rw nonzero (h _ refl)
]

module _ {w : Machine} (starts : Starts w) {X : List Event → Type 0} where
  -- a command that starts and may fail does not raise
  pub Leads-attempt :
      {P : List Event → Type 0} (Q : CommandExecutionResult → List Event → Type 0) (i : Invocation)
      → ((tr : List Event) (r : CommandExecutionResult)
          → P tr
          → success r ≡ replied_zero (w tr i)
          → Q r (ran i ∷ tr))
      → Leads w P (run_with false i) Q X
  unfolding run_with
  Leads-attempt Q i h = record {
    at = λ tr p.
        let (code, out, problem, e) = starts tr i in
        rw e (
          attempted-Ends Q X (command_text i.command) code out problem (ran i ∷ tr)
            (λ r s. h tr r p (rw e s)));
  }

certain-Ends :
    (X : List Event → Type 0) (t : String) (reply : Reply) (new : List Event)
    → (replied_zero reply ≡ false → X new)
    → Ends (λ _. Any) X (conclude t true reply) new
unfolding conclude
certain-Ends X t (completed code out problem) new h = elim (Bool-cases (is_zero code)) [
  | inl zero ↦ rw zero tt
  | inr nonzero ↦ rw nonzero (h nonzero)
]
certain-Ends X t (not_found reason) new h = h refl

module _ {w : Machine} where
  pub Leads-certain :
      {P X : List Event → Type 0} (i : Invocation)
      → Succeeds w i
      → Leads w P (run_with true i) (λ _. Any) X
  unfolding run_with
  Leads-certain {X = X} i h = record {
    at = λ tr p.
        certain-Ends X (command_text i.command) (w tr i) (ran i ∷ tr) (λ f. let z = h tr in cc);
  }

module _ (event : Reply → Command → Option Bool) {w : Machine} where
  pub other_command :
      (b : Bool) (i : Invocation)
      → ((r : Reply) → event r i.command ≡ none)
      → Leads w (IsReleased event w) (run_with b i) (λ _. IsReleased event w) (IsReleased event w)
  other_command b i e =
      Leads-run_with b i (λ tr p. before-none _ (is_held event w tr) (e (w tr i)) p)
        (λ tr p. before-none _ (is_held event w tr) (e (w tr i)) p)

  -- a command that takes nothing where it fails
  pub taking_command :
      (i : Invocation)
      → ((r : Reply) → replied_zero r ≡ false → event r i.command ≡ none)
      → Leads w (IsReleased event w) (run_with true i) (λ _. Any) (IsReleased event w)
  unfolding run_with
  taking_command i e = record {
    at = λ tr p.
        certain-Ends (IsReleased event w) (command_text i.command) (w tr i) (ran i ∷ tr)
          (λ f. before-none _ (is_held event w tr) (e (w tr i) f) p);
  }
