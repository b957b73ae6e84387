-- ===== src/Executors/Harmless/Images.antt =====
-- The kernel images step and the recovery system overwrite no device.
use arch_installer.Prelude.{String, ◌<>◌, []}
use arch_installer.Core.Exec.{Machine}
use arch_installer.Core.Exec.Emits.{Emits, emits_rules, Emits-bind}
use arch_installer.Core.Exec.Devices.{OverwritesIn, path_rules}
use arch_installer.Config.Models.Boot.{SecureBootConfig}
use arch_installer.Config.Models.{InstallerConfig}
use arch_installer.Executors.Base.{file_exists, write_file}
use arch_installer.Executors.Boot.SecureBoot.{
  is_in_setup_mode, ensure_keys, enroll_keys, enroll_in_setup_mode, prepare_secure_boot,
}
use arch_installer.Executors.Boot.Images
use arch_installer.Executors.Boot.Emissions.{
  ensure_keys-Emits, is_in_setup_mode-Emits, execute-Emits,
}
use arch_installer.Executors.Recovery
use arch_installer.Executors.Recovery.{
  recovery_build_directory, make_signature, remove_key, pack_certificate, sign_root_image,
  build_uki, copy_boot_files, build_image, release_image, sign_uki,
}

ruleset harmless_rules = (emits_rules, path_rules, tt)

abbrev build_directory : String
build_directory = "/mnt" <> recovery_build_directory

module _ (w : Machine) where
  prepare-OverwritesIn : (s : SecureBootConfig) → Emits w (OverwritesIn []) (prepare_secure_boot s)
  unfolding prepare_secure_boot enroll_in_setup_mode enroll_keys
  prepare-OverwritesIn s =
      Emits-bind is_in_setup_mode _
        (is_in_setup_mode-Emits w (OverwritesIn []) (λ c. tt) (λ c o d. d) (λ c h. tt))
        λ setup_mode.
          Emits-bind ensure_keys _
            (ensure_keys-Emits w (OverwritesIn []) (λ c. tt) (λ c o d. d) (λ c h. tt))
            λ _. search harmless_rules depth 30

  pub images-OverwritesIn :
      (repr : String → String) (config : InstallerConfig)
      → Emits w (OverwritesIn []) (Images.execute repr config)
  images-OverwritesIn repr config =
      execute-Emits w (OverwritesIn []) (λ c. tt) (λ c o d. d) (λ c h. tt) prepare-OverwritesIn repr
        config

  sign_root_image-OverwritesIn : Emits w (OverwritesIn []) (sign_root_image build_directory)
  unfolding sign_root_image make_signature remove_key pack_certificate
  sign_root_image-OverwritesIn = search harmless_rules depth 60

  build_image-OverwritesIn :
      (u : String) → Emits w (OverwritesIn []) (build_image u build_directory)
  unfolding build_image copy_boot_files build_uki
  build_image-OverwritesIn u = search (harmless_rules, sign_root_image-OverwritesIn) depth 60

  pub recovery-OverwritesIn :
      (config : InstallerConfig) → Emits w (OverwritesIn []) (Recovery.execute config)
  unfolding Recovery.execute release_image sign_uki file_exists write_file
  recovery-OverwritesIn config = search (harmless_rules, build_image-OverwritesIn) depth 60
