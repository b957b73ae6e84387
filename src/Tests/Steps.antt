-- ===== src/Tests/Steps.antt =====
-- The smaller steps and the validation of the configuration at concrete inputs.
use arch_installer.Prelude.{All, ◌≡◌, refl, ◌↔◌, String, ◌||◌, [], ◌∷◌, member}
use arch_installer.Errors.{ok, err, configuration_error, keyboard_interrupt, runtime_error}
use arch_installer.Core.Exec.Leads.{Leads}
use arch_installer.Executors.Firewall.{escaped_rule}
use arch_installer.Executors.Packages.{collect_packages, desktop_packages, gpu_packages}
use arch_installer.Executors.Packages.Selection.{
  IsDistinct, is_wanted, comes_with_desktops, comes_with_driver, collect_packages-selection,
}
use arch_installer.Executors.Docker.{daemon_json, missing_groups}
use arch_installer.Executors.System.{locale_conf, locales_to_generate}
use arch_installer.Core.Exec.Emits.{Emits}
use arch_installer.Core.Exec.Devices.{OverwritesIn}
use arch_installer.Executors.Harmless.{ordinary_steps, ordinary_steps-OverwritesIn}
use arch_installer.Cli.{validate_for_install, run_entry, exited, uncaught}
use arch_installer.Cli.Readiness.{IsReady, validate_for_install-IsReady}
use arch_installer.Tests.Fixtures.{sample_config, sample_system, quiet}

collect_packages-selection_example :
    IsDistinct (collect_packages sample_config)
    × ((p : String)
        → member p (collect_packages sample_config)
          ≡ is_wanted sample_config p
            || (comes_with_desktops sample_config.packages p
                || comes_with_driver sample_config.gpu.vendor sample_config.gpu.driver
                    sample_config.gpu.drivers p))
collect_packages-selection_example = collect_packages-selection sample_config

collected :
    collect_packages sample_config
    ≡ "base" ∷ "linux" ∷ "amd-ucode" ∷ "git" ∷ "plasma" ∷ "sddm" ∷ "nvidia-open" ∷ []
unfolding collect_packages arch_installer.Prelude.distinct
    arch_installer.Executors.Packages.without_unselected_kernels
    arch_installer.Executors.Packages.without_other_microcode
    arch_installer.Executors.Packages.other_microcode
    arch_installer.Executors.Packages.unwanted_kernels
    arch_installer.Config.Models.Boot.kernel_packages desktop_packages
    arch_installer.Config.Models.System.packages_for gpu_packages
    arch_installer.Executors.Packages.nvidia_packages
collected = refl

validate_for_install-IsReady_example :
    (validate_for_install sample_config ≡ ok tt) ↔ IsReady sample_config
validate_for_install-IsReady_example = validate_for_install-IsReady sample_config

accepted : validate_for_install sample_config ≡ ok tt
unfolding validate_for_install arch_installer.Cli.install_problems
accepted = refl

exit_statuses :
    (run_entry {A = String} (err (configuration_error "no")) ≡ exited 1)
    × (run_entry {A = String} (err (keyboard_interrupt "")) ≡ exited 130)
    × (run_entry {A = String} (err (runtime_error "no")) ≡ uncaught (runtime_error "no"))
unfolding run_entry
exit_statuses = (refl, refl, refl)

texts :
    (daemon_json "btrfs" "/var/lib/\"d\""
      ≡ "{\n    \"storage-driver\": \"btrfs\",\n    \"data-root\": \"/var/lib/\\\"d\\\"\"\n}\n")
    × (missing_groups "ops" ("wheel" ∷ "docker" ∷ []) ≡ "ops" ∷ [])
    × (locales_to_generate sample_system.locale ≡ "en_US.UTF-8" ∷ "fi_FI.UTF-8" ∷ [])
    × (locale_conf sample_system.locale
        ≡ "LANG=en_US.UTF-8\nLC_MONETARY=fi_FI.UTF-8\nLC_PAPER=fi_FI.UTF-8\n")
    × (escaped_rule "-p a.b/c" ≡ "\\-p a\\.b\\/c")
unfolding daemon_json missing_groups locales_to_generate locale_conf escaped_rule
    arch_installer.Executors.Docker.json_text arch_installer.Executors.Docker.json_content
    arch_installer.Prelude.sort_texts arch_installer.Prelude.distinct
    arch_installer.Config.Models.System.full_locale arch_installer.Prelude.join
    arch_installer.Executors.System.category_line arch_installer.Prelude.replace
texts = (refl, refl, refl, refl, refl)

ordinary_steps-OverwritesIn_example :
    All (λ step. Emits quiet (OverwritesIn []) step) (ordinary_steps sample_config)
ordinary_steps-OverwritesIn_example = ordinary_steps-OverwritesIn quiet sample_config
