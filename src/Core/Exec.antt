-- ===== src/Core/Exec.antt =====
-- `CommandRunner`: code that runs commands on a machine, and may raise. The machine is a parameter: its
-- reply to a command may depend on everything that was run before. The trace holds what was run,
-- newest first. What was run before an error stays run, so the trace comes back beside the error.
-- Callers never pass an environment, a working directory or `capture_output`, and what is only
-- logged is left out.
pub mod Emits
pub mod Devices
pub mod Failing
pub mod Leads
pub mod Held
pub mod Added
use arch_installer.Prelude.{
  String, ◌<>◌, Bool, true, false, Option, none, some, List, [], ◌∷◌, ℕ, zero, suc, eqb, strip,
  if◌then◌else◌,
}
use arch_installer.Errors.{
  ExitCode, status, signal, Error, command_error, runtime_error, Result, ok, err,
}
use arch_installer.Core.Commands.{Command, probe, files, command_text}
use arch_installer.Core.Commands.Probes.{Probe}
use arch_installer.Core.Commands.Files.{write}

-- A command with what is fed to its standard input.
pub record Invocation : Type 0 where
  pub command : Command
  pub input : Option String

pub data Event : Type 0 where
  ran : Invocation → Event
  slept : ℕ → Event

-- What `subprocess.run` gives back: the exit status with both outputs, or `FileNotFoundError`.
pub data Reply : Type 0 where
  completed : ExitCode → String → String → Reply
  not_found : String → Reply

abbrev pub Machine : Type 0
Machine = List Event → Invocation → Reply

pub record CommandExecutionResult : Type 0 where
  pub command : String
  pub exit_code : ExitCode
  pub stdout : String
  pub stderr : String

-- `self.exit_code == 0`
abbrev pub is_zero : ExitCode → Bool
is_zero (status n) = eqb n 0
is_zero (signal n) = false

abbrev pub success : CommandExecutionResult → Bool
success r = is_zero r.exit_code

-- `f"{self.stdout}\n{self.stderr}".strip()`
unfoldable pub output : CommandExecutionResult → String
output r = strip (r.stdout <> "\n" <> r.stderr)

abbrev pub Exec : Type 0 → Type 0
Exec A = Machine → List Event → Result A × List Event

abbrev pub Done : Type 0
Done = Unit {0}

module _ {A : Type 0} where
  pub pure : A → Exec A
  pure a w tr = (ok a, tr)

  pub raise : Error → Exec A
  raise e w tr = (err e, tr)

module _ {A B : Type 0} where
  abbrev pub continue : Result A → (A → Exec B) → Exec B
  continue (ok a) f w tr = f a w tr
  continue (err e) f w tr = (err e, tr)

  infixl 5 ◌>>=◌
  unfoldable pub ◌>>=◌ : Exec A → (A → Exec B) → Exec B
  unfolding pure raise
  ◌>>=◌ m f w tr = let (r, tr') = m w tr in continue r f w tr'

module _ {B : Type 0} where
  infixl 5 ◌>>◌
  abbrev pub ◌>>◌ : Exec Done → Exec B → Exec B
  m >> k = m >>= λ _. k

-- The result that the runner builds from a reply; 127 and the reason for a missing program.
unfoldable pub conclude : String → Bool → Reply → Result CommandExecutionResult
conclude text raise_on_nonzero_exit (not_found reason) = err (
    command_error (record {
      command = text;
      exit_code = status 127;
      stdout = "";
      stderr = "Command not found: " <> reason;
    }))
conclude text raise_on_nonzero_exit (completed code out problem) =
    if is_zero code
    then ok (record { command = text; exit_code = code; stdout = out; stderr = problem })
    else if raise_on_nonzero_exit
    then err (
        command_error (record { command = text; exit_code = code; stdout = out; stderr = problem }))
    else ok (record { command = text; exit_code = code; stdout = out; stderr = problem })

unfoldable pub run_with : Bool → Invocation → Exec CommandExecutionResult
unfolding conclude
run_with raise_on_nonzero_exit i w tr =
    (conclude (command_text i.command) raise_on_nonzero_exit (w tr i), ran i ∷ tr)

abbrev pub plain : Command → Invocation
plain c = record { command = c; input = none }

-- `run(command)`
abbrev pub run : Command → Exec CommandExecutionResult
run c = run_with true (plain c)

-- `run(command, raise_on_nonzero_exit=False)`
abbrev pub attempt : Command → Exec CommandExecutionResult
attempt c = run_with false (plain c)

-- the same, where the result is not used
abbrev pub do_run : Command → Exec Done
do_run c = run c >>= λ _. pure tt

abbrev pub do_attempt : Command → Exec Done
do_attempt c = attempt c >>= λ _. pure tt

-- `run(command, input_data=input)`
abbrev pub feed : Command → String → Exec Done
feed c input = run_with true (record { command = c; input = some input }) >>= λ _. pure tt

-- `run(command, raise_on_nonzero_exit=False).success`
abbrev pub succeeds : Command → Exec Bool
succeeds c = attempt c >>= λ r. pure (success r)

-- `time.sleep`
unfoldable pub sleep : ℕ → Exec Done
sleep seconds w tr = (ok tt, slept seconds ∷ tr)

module _ {A : Type 0} where
  -- `for x in xs: f(x)`
  pub for_each : List A → (A → Exec Done) → Exec Done
  for_each [] f = pure tt
  for_each (x ∷ xs) f = f x >>= λ _. for_each xs f

  -- `try: m` and `finally: cleanup`. An error of the clean-up replaces that of the body.
  pub finally : Exec A → Exec Done → Exec A
  finally m cleanup w tr =
      let (r, tr') = m w tr in
      let (c, tr'') = cleanup w tr' in (elim c [ ok _ ↦ r | err e ↦ err e ], tr'')
