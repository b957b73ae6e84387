-- ===== src/Executors/Boot/Enrollment.antt =====
-- executors/boot.py: when Secure Boot keys are enrolled, and that the boot steps overwrite no device.
use arch_installer.Prelude.{◌≡◌, refl, String, Bool, true, false, not, Option, none, some, split_on}
use arch_installer.Core.Commands.{chroot}
use arch_installer.Core.Commands.Chroot
use arch_installer.Core.Commands.Chroot.{ChrootCommand}
use arch_installer.Core.Exec.{Machine, Event, ran, slept, plain}
use arch_installer.Core.Exec.Emits.{
  Emits, emits_rules, Emits-bind, Emits-bind-Yields, Yields, Yields-bind, Yields-pure,
  Yields-run_with, Prints,
}
use arch_installer.Config.Models.Boot.{SecureBootConfig}
use arch_installer.Config.Models.{InstallerConfig}
use arch_installer.Executors.Boot.SecureBoot.{
  setup_mode_answer, answer_or_efivar, is_in_setup_mode, ensure_keys, enroll_in_setup_mode,
  prepare_secure_boot,
}
use arch_installer.Executors.Boot.Images
use arch_installer.Executors.Boot.Emissions.{
  is_enrollment, ensure_keys-Emits, is_in_setup_mode-Emits, execute-Emits,
}

-- No keys are enrolled in the firmware.
abbrev pub IsNotEnrollment : Event → Type 0
IsNotEnrollment (ran i) = is_enrollment i.command ≡ false
IsNotEnrollment (slept n) = Unit

-- the status speaks of the setup mode, and not as enabled
abbrev pub denies : Option Bool → Bool
denies none = false
denies (some answer) = not answer

abbrev pub denies_setup_mode : String → Bool
denies_setup_mode out = denies (setup_mode_answer (split_on 10 out))

ruleset plain_rules = (emits_rules, refl, tt)

answer-Yields :
    (w : Machine) (o : Option Bool)
    → denies o ≡ true
    → Yields w (λ b. b ≡ false) (answer_or_efivar o)
unfolding answer_or_efivar
answer-Yields w none h = cc
answer-Yields w (some true) h = cc
answer-Yields w (some false) h = Yields-pure false refl

module _ (w : Machine) where
  boots :
      (c : ChrootCommand)
      → is_enrollment (chroot c) ≡ false
      → IsNotEnrollment (ran (plain (chroot c)))
  boots c h = h

  module _ (denied : Prints w (plain (chroot Chroot.secure_boot_status)) denies_setup_mode) where
    is_in_setup_mode-Yields : Yields w (λ b. b ≡ false) is_in_setup_mode
    unfolding is_in_setup_mode
    is_in_setup_mode-Yields =
        Yields-bind (λ r. denies_setup_mode r.stdout ≡ true) _ _
          (Yields-run_with false _ denies_setup_mode denied) λ r h. answer-Yields w _ h

    prepare_secure_boot-Emits :
        (s : SecureBootConfig) → Emits w IsNotEnrollment (prepare_secure_boot s)
    unfolding prepare_secure_boot enroll_in_setup_mode
    prepare_secure_boot-Emits s =
        Emits-bind-Yields (λ b. b ≡ false) is_in_setup_mode _
          (is_in_setup_mode-Emits w IsNotEnrollment (λ c. refl) (λ c o d. refl) boots)
          is_in_setup_mode-Yields
          λ setup_mode e.
            Emits-bind ensure_keys _
              (ensure_keys-Emits w IsNotEnrollment (λ c. refl) (λ c o d. refl) boots)
              λ _. rw e (search plain_rules)

-- On a machine whose Secure Boot status says that the setup mode is not enabled, the kernel images step
-- enrolls no keys.
pub execute-IsNotEnrollment :
    (w : Machine) (repr : String → String) (config : InstallerConfig)
    → Prints w (plain (chroot Chroot.secure_boot_status)) denies_setup_mode
    → Emits w IsNotEnrollment (Images.execute repr config)
execute-IsNotEnrollment w repr config denied =
    execute-Emits w IsNotEnrollment (λ c. refl) (λ c o d. refl) (boots w)
      (prepare_secure_boot-Emits w denied) repr config
