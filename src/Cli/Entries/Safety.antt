-- ===== src/Cli/Entries/Safety.antt =====
-- cli.py: an installation starts only with a configuration that is ready, and a run that asks nothing.
use arch_installer.Prelude.{
  ◌≡◌, refl, Bool, true, false, Option, none, some, String, ◌⊎◌, inl, inr, List,
}
use arch_installer.Prelude.Dict.{Dict}
use arch_installer.Errors.{Result, ok, err}
use arch_installer.Core.Exec.{Machine, Event}
use arch_installer.Core.Exec.Devices.{OverwritesIn, IsReadOnly}
use arch_installer.Core.Exec.Added.{IsAdded}
use arch_installer.Config.Value.{text}
use arch_installer.Config.Models.{InstallerConfig}
use arch_installer.Install.Installer.{install}
use arch_installer.Install.Safety.{install_devices, install-OverwritesIn}
use arch_installer.Cli.{validate_for_install}
use arch_installer.Cli.Readiness.{IsReady, validate_for_install-IsReady}
use arch_installer.Cli.Terminal.{
  Console, Outcome, waiting, failed, ended, Terminal, pure, or_raise, result_outcome, continue,
  ◌>>=◌,
}
use arch_installer.Config.Value.{Value}
use arch_installer.Config.ValuePrecedence.{SettingValue}
use arch_installer.Setup.Talk.Asks.{Asks, Asks-on_screen, Asks-bind}
use arch_installer.Setup.Asking.{Asks-run_setup}
use arch_installer.Tui.Curses.{run_tui_setup, curses_frontend}
use arch_installer.Cli.Terminal.Asking.{
  trace_of, Probing, Probing-or_raise, Probing-pure, Probing-if, Probing-bind, Probing-ask_secret,
  Probing-in_setup,
}
use arch_installer.Cli.Assembly.{
  Host, TuiSetup, unlocked_passwords, final_values, assemble_installer_config, is_interactive,
}
use arch_installer.Cli.Entries.{run_after, prepare_install, main, setup_if}

-- what holds of the value that a terminal run ends with
abbrev pub Gives : {A : Type 0} → (A → Type 0) → Outcome A → Type 0
Gives Q (waiting tr) = Unit {0}
Gives Q (failed e tr) = Unit {0}
Gives Q (ended a tr console) = Q a

continue-Gives :
    {A B : Type 0} (Q : B → Type 0) (o : Outcome A) (f : A → Terminal B)
    → ((a : A) (tr : List Event) (console : Console) → Gives Q (f a tr console))
    → Gives Q (continue o f)
continue-Gives Q (waiting tr) f h = tt
continue-Gives Q (failed e tr) f h = tt
continue-Gives Q (ended a tr console) f h = h a tr console

validated-IsReady :
    (r : Result (Unit {0})) (config : InstallerConfig) (tr : List Event) (console : Console)
    → validate_for_install config ≡ r
    → Gives IsReady (continue (result_outcome r tr console) (λ _. pure config))
validated-IsReady (ok u) config tr console same = (validate_for_install-IsReady config).0 same
validated-IsReady (err e) config tr console same = tt

prepare_install-IsReady :
    (host : Host) (w : Machine) (variables : Dict String) (tr : List Event) (console : Console)
    → Gives IsReady (prepare_install host w variables tr console)
unfolding prepare_install ◌>>=◌
prepare_install-IsReady host w variables tr console =
    continue-Gives IsReady (or_raise (is_interactive host variables) tr console) _
      λ interactive tr1 console1.
        continue-Gives IsReady
          (assemble_installer_config host variables (setup_if host w interactive) tr1 console1) _
          λ config tr2 console2.
            validated-IsReady (validate_for_install config) config tr2 console2 refl

Asks-tui :
    (str : Value → String) (inherited : Dict SettingValue) → Asks (run_tui_setup str inherited)
unfolding run_tui_setup
Asks-tui str inherited =
    Asks-bind _ _ (Asks-on_screen _) (λ _. Asks-run_setup str curses_frontend inherited)

-- a setup, if there is one, only asks the machine
abbrev IsProbing : Option TuiSetup → Type 0
IsProbing none = Unit {0}
IsProbing (some tui) = (inherited : Dict SettingValue) → Probing (tui inherited)

setup_if-IsProbing : (host : Host) (w : Machine) (b : Bool) → IsProbing (setup_if host w b)
setup_if-IsProbing host w true = λ inherited. Probing-in_setup w _ (Asks-tui host.str inherited)
setup_if-IsProbing host w false = tt

Probing-final :
    (tui : Option TuiSetup) (inherited : Dict SettingValue)
    → IsProbing tui
    → Probing (final_values tui inherited)
unfolding final_values
Probing-final none inherited h = Probing-pure inherited
Probing-final (some tui) inherited h = Probing-bind _ _ (h inherited) (λ choices. Probing-pure _)

Probing-unlocked :
    (host : Host) (from_file from_environment : Dict Value) (variables : Dict String)
    (tui : Option TuiSetup)
    → Probing (unlocked_passwords host from_file from_environment variables tui)
unfolding unlocked_passwords
Probing-unlocked host from_file from_environment variables tui = Probing-if _ _ _ (Probing-pure _) (
    Probing-bind _ _
      (Probing-if _ _ _ (Probing-ask_secret "Secrets decryption key" false) (Probing-pure _))
      λ secrets_key. Probing-if _ _ _ (Probing-pure _) (Probing-or_raise _))

Probing-assemble :
    (host : Host) (variables : Dict String) (tui : Option TuiSetup)
    → IsProbing tui
    → Probing (assemble_installer_config host variables tui)
unfolding assemble_installer_config
Probing-assemble host variables tui h = Probing-bind _ _ (Probing-or_raise _) λ from_environment.
    Probing-bind _ _ (Probing-or_raise _) λ from_file.
      Probing-bind _ _ (Probing-unlocked host from_file from_environment variables tui)
        λ unlocked. Probing-bind _ _ (Probing-final tui _ h) λ final. Probing-or_raise _

Probing-prepare :
    (host : Host) (w : Machine) (variables : Dict String)
    → Probing (prepare_install host w variables)
unfolding prepare_install
Probing-prepare host w variables = Probing-bind _ _ (Probing-or_raise _) λ interactive.
    Probing-bind _ _ (Probing-assemble host variables _ (setup_if-IsProbing host w interactive))
      λ config. Probing-bind _ _ (Probing-or_raise _) λ _. Probing-pure config

module _ (host : Host) (w : Machine) (tr : List Event) where
  after-safe :
      (o : Outcome InstallerConfig)
      → Gives IsReady o
      → IsAdded IsReadOnly tr (trace_of o)
      → IsAdded IsReadOnly tr (run_after o (install host.safe_dump (λ t. host.repr (text t))) w).1
        ⊎ ((c : InstallerConfig) × (asked : List Event) × (left : Console) × (o
              ≡ ended c asked left)
            × IsReady c
            × IsAdded IsReadOnly tr asked
            × IsAdded
                (OverwritesIn (install_devices c))
                asked
                (run_after o (install host.safe_dump (λ t. host.repr (text t))) w).1)
  unfolding run_after
  after-safe (waiting tr') h added = inl added
  after-safe (failed e tr') h added = inl added
  after-safe (ended c asked left) h added = inr (
    c,
    asked,
    left,
    refl,
    h,
    added,
    (install-OverwritesIn w (λ t. host.repr (text t)) c host.safe_dump).at asked,
  )

  -- Whatever the environment, the files, what is typed and the machine: either arch-installer only
  -- asks the machine (the disks, for the interactive setup), or it has assembled a configuration that is
  -- ready after only asking the machine, and from there on overwrites no device but the target disk,
  -- its partitions, the opened volume and the USB boot drive that this configuration names.
  pub main-IsReady :
      (variables : Dict String) (console : Console)
      → IsAdded IsReadOnly tr (main host variables console w tr).1
        ⊎ ((c : InstallerConfig) × (asked : List Event) × (left : Console) × (prepare_install host w
                variables tr console
              ≡ ended c asked left)
            × IsReady c
            × IsAdded IsReadOnly tr asked
            × IsAdded (OverwritesIn (install_devices c)) asked (main host variables console w tr).1)
  unfolding main
  main-IsReady variables console =
      after-safe (prepare_install host w variables tr console)
        (prepare_install-IsReady host w variables tr console)
        ((Probing-prepare host w variables).at tr console)
