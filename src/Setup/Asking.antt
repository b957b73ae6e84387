-- ===== src/Setup/Asking.antt =====
-- setup/: the interactive setup only asks the machine, for its disks.
use arch_installer.Prelude.{refl, String, Option, none, some, List, [], ◌∷◌}
use arch_installer.Prelude.Dict.{Dict}
use arch_installer.Core.Exec.{Machine}
use arch_installer.Core.Exec.Emits.{Emits, Emits-bind, emits_rules}
use arch_installer.Core.Exec.Devices.{IsReadOnly}
use arch_installer.Config.Value.{Value}
use arch_installer.Config.ValuePrecedence.{SettingValue}
use arch_installer.Install.Questions.{
  Choice, Choices, fixed, computed, from_disks, Question, choose_one, choose_many, enter_text,
  enter_secret, switch,
}
use arch_installer.Install.Steps.{InstallStep, run_order}
use arch_installer.Install.Wiring.{StepSetting}
use arch_installer.Setup.Frontend.{SetupFrontend}
use arch_installer.Setup.Machine.{model_and_size, disks_named, disks}
use arch_installer.Setup.Session.{SetupSession}
use arch_installer.Setup.Questions.{offered, answer, ask}
use arch_installer.Setup.Run.{ask_settings, ask_steps, run_setup}
use arch_installer.Setup.Talk.Asks.{Asks, Asks-on_screen, Asks-on_machine, Asks-bind, Asks-if}

module _ (w : Machine) where
  disks_named-IsReadOnly : (names : List String) → Emits w IsReadOnly (disks_named names)
  unfolding disks_named model_and_size
  disks_named-IsReadOnly [] = search emits_rules
  disks_named-IsReadOnly (name ∷ names) =
      Emits-bind (model_and_size _) _ (search (emits_rules, refl) depth 30) λ found.
        Emits-bind (disks_named names) _ (disks_named-IsReadOnly names) λ rest. search emits_rules

  disks-IsReadOnly : Emits w IsReadOnly disks
  unfolding disks
  disks-IsReadOnly = search (emits_rules, refl, disks_named-IsReadOnly) depth 30

Asks-offered :
    (choices : Choices) (inherited : Option SettingValue) → Asks (offered choices inherited)
unfolding offered
Asks-offered (fixed choices) inherited = Asks-on_screen _
Asks-offered (computed choices) inherited = Asks-on_screen _
Asks-offered (from_disks choices) inherited =
    Asks-bind _ _ (Asks-on_machine disks disks-IsReadOnly) (λ found. Asks-on_screen _)

module _ (str : Value → String) (frontend : SetupFrontend) where
  Asks-answer :
      (step setting_path : String) (question : Option Question) (inherited : Option SettingValue)
      (offers : Dict (List Choice))
      → Asks (answer str frontend step setting_path question inherited offers)
  unfolding answer
  Asks-answer step setting_path none inherited offers = Asks-on_screen _
  Asks-answer step setting_path (some (switch question)) inherited offers = Asks-on_screen _
  Asks-answer step setting_path (some (choose_one question)) inherited offers =
      Asks-bind _ _ (Asks-offered question.choices inherited) (λ choices. Asks-on_screen _)
  Asks-answer step setting_path (some (choose_many question)) inherited offers = Asks-on_screen _
  Asks-answer step setting_path (some (enter_text question)) inherited offers = Asks-on_screen _
  Asks-answer step setting_path (some (enter_secret question)) inherited offers = Asks-on_screen _

  Asks-ask :
      (inherited : Dict SettingValue) (step : String) (setting : StepSetting)
      (session : SetupSession)
      → Asks (ask str frontend inherited step setting session)
  unfolding ask
  Asks-ask inherited step setting session =
      Asks-bind _ _ (Asks-answer step setting.path setting.question _ _)
        (λ answered. Asks-on_screen _)

  module _ (inherited : Dict SettingValue) where
    Asks-settings :
        (step : String) (settings : List StepSetting) (session : SetupSession)
        → Asks (ask_settings str frontend inherited step settings session)
    unfolding ask_settings
    Asks-settings step [] session = Asks-on_screen _
    Asks-settings step (setting ∷ settings) session = Asks-bind _ _ (Asks-on_screen _) λ asked.
        Asks-bind _ _
          (Asks-if asked _ _ (Asks-ask inherited step setting session) (Asks-on_screen _))
          λ session'. Asks-settings step settings session'

    Asks-steps :
        (steps : List InstallStep) (session : SetupSession)
        → Asks (ask_steps str frontend inherited steps session)
    unfolding ask_steps
    Asks-steps [] session = Asks-on_screen _
    Asks-steps (step ∷ steps) session =
        Asks-bind _ _ (Asks-settings _ _ session) (λ session'. Asks-steps steps session')

    pub Asks-run_setup : Asks (run_setup str frontend inherited)
    unfolding run_setup
    Asks-run_setup = Asks-bind _ _ (Asks-steps run_order _) λ session.
        Asks-bind _ _ (Asks-on_screen _) λ rows.
          Asks-bind _ _ (Asks-on_screen _)
            λ confirmed. Asks-if confirmed _ _ (Asks-on_screen _) (Asks-on_screen _)
