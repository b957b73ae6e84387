-- ===== src/Cli/Entries/Unattended.antt =====
-- cli.py: a run that is not interactive.
use arch_installer.Prelude.{
  ◌≡◌, refl, ap, ◌∙◌, String, Bool, true, false, ◌&&◌, List, if◌then◌else◌, none,
}
use arch_installer.Prelude.Dict.{Dict}
use arch_installer.Errors.{Result, ok, err, ◌>>=◌ as ◌then◌}
use arch_installer.Core.Exec.{Machine, Event, Exec, Done}
use arch_installer.Config.Value.{text, Value}
use arch_installer.Install.Installer.{install}
use arch_installer.Cli.{Ending}
use arch_installer.Cli.Terminal.{Console, Terminal, pure, or_raise, result_outcome, continue, ◌>>=◌}
use arch_installer.Cli.Prompts.{ask_secret}
use arch_installer.Cli.Assembly.{
  Host, assemble_installer_config, unlocked_passwords, final_values, is_interactive,
}
use arch_installer.Cli.Entries.{finished, run_after, prepare_install, main}

-- Code that neither waits nor reads the console: it ends with the same result on each.
pub record Silent {A : Type 0} (m : Terminal A) : Type 0 where
  pub result : Result A
  pub same : (tr : List Event) (console : Console) → m tr console ≡ result_outcome result tr console

Silent-or_raise : {A : Type 0} (r : Result A) → Silent (or_raise r)
Silent-or_raise r = record { result = r; same = λ tr console. refl }

Silent-pure : {A : Type 0} (a : A) → Silent (pure a)
Silent-pure a = record { result = ok a; same = λ tr console. refl }

module _ {A B : Type 0} where
  continue-same :
      (r : Result A) (f : A → Terminal B) (h : (a : A) → Silent (f a)) (tr : List Event)
      (console : Console)
      → continue (result_outcome r tr console) f
        ≡ result_outcome (r then λ a. (h a).result) tr console
  continue-same (ok a) f h tr console = (h a).same tr console
  continue-same (err e) f h tr console = refl

  Silent-bind :
      (m : Terminal A) (f : A → Terminal B) → Silent m → ((a : A) → Silent (f a)) → Silent (m >>= f)
  unfolding ◌>>=◌
  Silent-bind m f s h = record {
    result = s.result then λ a. (h a).result;
    same = λ tr console.
        ap (λ o. continue o f) (s.same tr console) ∙ continue-same s.result f h tr console;
  }

Silent-known :
    {A B : Type 0} (a : A) (f : A → Terminal B) → Silent (f a) → Silent (or_raise (ok a) >>= f)
unfolding ◌>>=◌
Silent-known a f s = record { result = s.result; same = s.same }

module _ {A : Type 0} (commands : A → Exec Done) (w : Machine) (tr : List Event) where
  after-same :
      (r : Result A) (console console' : Console)
      → run_after (result_outcome r tr console) commands w
        ≡ run_after (result_outcome r tr console') commands w
  unfolding run_after
  after-same (ok a) console console' = refl
  after-same (err e) console console' = refl

  after-finished :
      (r : Result A) (console : Console)
      → (ending : Ending) × ((run_after (result_outcome r tr console) commands w).0
          ≡ finished ending)
  unfolding run_after
  after-finished (ok a) console = (_, refl)
  after-finished (err e) console = (_, refl)

  Silent-after :
      (m : Terminal A) (console console' : Console)
      → Silent m
      → ((ending : Ending) × ((run_after (m tr console) commands w).0 ≡ finished ending))
        × (run_after (m tr console) commands w ≡ run_after (m tr console') commands w)
  Silent-after m console console' s =
      rw (s.same tr console, s.same tr console')
        (after-finished s.result console, after-same s.result console console')

Silent-if :
    {A : Type 0} (b : Bool) (m n : Terminal A) → Silent m → Silent n → Silent (if b then m else n)
Silent-if true m n s t = s
Silent-if false m n s t = t

-- the branch that asks is for a run with a setup
Silent-no_setup :
    {A : Type 0} (b : Bool) (m n : Terminal A) → Silent n → Silent (if b && false then m else n)
Silent-no_setup true m n s = s
Silent-no_setup false m n s = s

Silent-unlocked :
    (host : Host) (from_file from_environment : Dict Value) (variables : Dict String)
    → Silent (unlocked_passwords host from_file from_environment variables none)
unfolding unlocked_passwords
Silent-unlocked host from_file from_environment variables = Silent-if _ _ _ (Silent-pure _) (
    Silent-bind _ _
      (Silent-no_setup _ (ask_secret "Secrets decryption key" false) _ (Silent-pure _))
      λ secrets_key. Silent-if _ _ _ (Silent-pure _) (Silent-or_raise _))

Silent-final : (inherited : Dict _) → Silent (final_values none inherited)
unfolding final_values
Silent-final inherited = Silent-pure inherited

Silent-assemble :
    (host : Host) (variables : Dict String) → Silent (assemble_installer_config host variables none)
unfolding assemble_installer_config
Silent-assemble host variables = Silent-bind _ _ (Silent-or_raise _) λ from_environment.
    Silent-bind _ _ (Silent-or_raise _) λ from_file.
      Silent-bind _ _ (Silent-unlocked host from_file from_environment variables)
        λ unlocked. Silent-bind _ _ (Silent-final _) λ final. Silent-or_raise _

module _ (host : Host) (variables : Dict String)
    (unattended : is_interactive host variables ≡ ok false) where
  Silent-prepare : (w : Machine) → Silent (prepare_install host w variables)
  unfolding prepare_install
  Silent-prepare w = rw unattended (
      Silent-known false _ (
        Silent-bind _ _ (Silent-assemble host variables)
          λ config. Silent-bind _ _ (Silent-or_raise _) λ _. Silent-pure config))

  -- A run with NON_INTERACTIVE on asks nothing: on every machine it ends, with an exit status or an
  -- uncaught error, and its end and its commands are the same whatever is typed.
  pub main-unattended :
      (w : Machine) (tr : List Event) (console console' : Console)
      → ((ending : Ending) × ((main host variables console w tr).0 ≡ finished ending))
        × (main host variables console w tr ≡ main host variables console' w tr)
  unfolding main
  main-unattended w tr console console' =
      Silent-after (install host.safe_dump (λ t. host.repr (text t))) w tr
        (prepare_install host w variables) console console' (Silent-prepare w)
