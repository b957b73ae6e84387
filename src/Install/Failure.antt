-- ===== src/Install/Failure.antt =====
-- installer.py: an old install that cannot be staged ends the installation before any disk is touched.
use arch_installer.Prelude.{
  ◌≡◌, refl, ap, ◌∙◌, String, Bool, true, false, List, [], ◌∷◌, ◌++◌, All, keep,
}
use arch_installer.Errors.{Error, err}
use arch_installer.Core.Exec.{Machine, Event, for_each}
use arch_installer.Core.Exec.Failing.{bind-err, pure-bind, for_each-err}
use arch_installer.Core.Exec.Devices.{OverwritesIn}
use arch_installer.Config.Value.{Value}
use arch_installer.Config.Models.{InstallerConfig}
use arch_installer.Executors.Migration.Staging
use arch_installer.Executors.Harmless.Staging.{staging-OverwritesIn}
use arch_installer.Install.Steps.{InstallStep, run_order}
use arch_installer.Install.Registry.{wiring}
use arch_installer.Install.Installer.{or_raise, run_step, install}
use arch_installer.Install.Enabled.{is_wanted, enabled_steps-wanted}

-- with migration, the staging is the first of the steps
staging_first :
    (c : InstallerConfig) (b : Bool)
    → b ≡ true
    → (rest : List InstallStep)
    → elim b [ true ↦ InstallStep.migration_staging ∷ rest | false ↦ rest ]
      ≡ InstallStep.migration_staging ∷ rest
staging_first c true h rest = refl
staging_first c false h rest = cc

module _ (w : Machine) (repr : String → String) (dump : Value → String) (c : InstallerConfig) where
  -- the steps, run in order, end with the error of the staging
  steps-err :
      (steps rest : List InstallStep) (tr : List Event) (e : Error)
      → steps ≡ InstallStep.migration_staging ∷ rest
      → (Staging.execute c w tr).0 ≡ err e
      → for_each steps (run_step repr c) w tr ≡ (err e, (Staging.execute c w tr).1)
  unfolding run_step wiring
  steps-err steps rest tr e first h =
      rw first (for_each-err InstallStep.migration_staging rest (run_step repr c) w tr e h)

  install-err :
      (tr : List Event) (e : Error)
      → c.migration.enabled ≡ true
      → (Staging.execute c w tr).0 ≡ err e
      → install dump repr c w tr ≡ (err e, (Staging.execute c w tr).1)
  unfolding install or_raise
  install-err tr e migrates h =
      let failed =
        steps-err (keep (is_wanted c) run_order) _ tr e (staging_first c _ migrates _) h in
      rw (enabled_steps-wanted repr c) (
        pure-bind (keep (is_wanted c) run_order) _ w tr
        ∙ bind-err (for_each (keep (is_wanted c) run_order) (run_step repr c)) _ w tr e
            (ap (λ p. p.0) failed)
        ∙ ap (λ p. (err e, p.1)) failed)

  -- Where data of an old install is migrated and its staging raises an error, the installation raises
  -- the same error, and from its start to its end no device was overwritten.
  pub install-staging_fails :
      (tr : List Event) (e : Error)
      → c.migration.enabled ≡ true
      → (Staging.execute c w tr).0 ≡ err e
      → ((install dump repr c w tr).0 ≡ err e)
        × ((new : List Event) × ((install dump repr c w tr).1 ≡ new ++ tr)
            × All (OverwritesIn []) new)
  install-staging_fails tr e migrates h =
      let (new, added, harmless) = (staging-OverwritesIn w c).at tr in
      rw (install-err tr e migrates h) (refl, (new, added, harmless))
