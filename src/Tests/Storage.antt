-- ===== src/Tests/Storage.antt =====
-- The storage step on concrete machines.
use arch_installer.Prelude.{◌≡◌, refl, subst, String, true, contains, []}
use arch_installer.Errors.{ExitCode}
use arch_installer.Core.Exec.{completed}
use arch_installer.Core.Exec.Emits.{Emits}
use arch_installer.Core.Exec.Devices.{OverwritesIn}
use arch_installer.Executors.Storage.{execute}
use arch_installer.Executors.Storage.Safety.{own_devices, execute-OverwritesIn}
use arch_installer.Executors.Storage.Resume.{IsIntact, execute-spares_intact}
use arch_installer.Tests.Fixtures.{sample_config, quiet, installed}

execute-OverwritesIn_example :
    Emits quiet (OverwritesIn (own_devices sample_config)) (execute sample_config)
execute-OverwritesIn_example = execute-OverwritesIn quiet sample_config

printed :
    (a b : ExitCode) (out out' p q : String) → completed a out p ≡ completed b out' q → out ≡ out'
printed a b out out' p q e = cc

installed-IsIntact : IsIntact installed sample_config
unfolding contains
installed-IsIntact = record {
  has_efi = λ tr. refl;
  has_encrypted = λ tr. refl;
  has_header = λ tr. refl;
  unlocks = λ tr. refl;
  has_btrfs = λ tr code out problem e.
      subst (λ o. contains "TYPE=\"btrfs\"" o ≡ true) (printed _ _ _ _ _ _ e) refl;
  has_vfat = λ tr code out problem e.
      subst (λ o. contains "TYPE=\"vfat\"" o ≡ true) (printed _ _ _ _ _ _ e) refl;
}

execute-spares_intact_example : Emits installed (OverwritesIn []) (execute sample_config)
execute-spares_intact_example =
    execute-spares_intact installed sample_config installed-IsIntact refl refl
