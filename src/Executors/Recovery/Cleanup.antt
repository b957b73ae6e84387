-- ===== src/Executors/Recovery/Cleanup.antt =====
-- executors/recovery.py: the signing key does not stay on the live system.
use arch_installer.Prelude.{
  refl, String, ◌==◌, Bool, true, false, Option, none, some, List, if◌then◌else◌,
}
use arch_installer.Core.Commands.{Command, files}
use arch_installer.Core.Commands.Files.{make_signing_key, remove}
use arch_installer.Core.Exec.{Machine, Event, Reply, finally}
use arch_installer.Core.Exec.Leads.{
  Leads, keeps_rules, Leads-bind, Leads-run_with, Leads-finally, Leads-any, Keeps-pure,
}
use arch_installer.Core.Exec.Held.{IsReleased, other_command}
use arch_installer.Config.Models.{InstallerConfig}
use arch_installer.Executors.Base.{file_exists, write_file}
use arch_installer.Executors.Recovery.{
  make_signature, remove_key, pack_certificate, sign_root_image, build_uki, copy_boot_files,
  build_image, release_image, sign_uki, execute,
}

abbrev signing_key : String
signing_key = "/run/dali/recovery-signing/key.pem"

-- whether a command generates the key, or removes it
abbrev pub key_event : Reply → Command → Option Bool
key_event r (files (make_signing_key d)) = some true
key_event r (files (remove path)) = if path == signing_key then some false else none
key_event r _ = none

-- The key was not generated, or an attempt was made to remove it since.
abbrev pub IsKeyGone : Machine → List Event → Type 0
IsKeyGone = IsReleased key_event

module _ {w : Machine} where
  remove_key-IsKeyGone : Leads w (λ tr. Unit {0}) remove_key (λ _. IsKeyGone w) (IsKeyGone w)
  unfolding remove_key
  remove_key-IsKeyGone =
      Leads-bind (λ _. IsKeyGone w) _ _ (Leads-run_with false _ (λ tr p. refl) (λ tr p. refl))
        λ _. Keeps-pure tt

  pack_certificate-IsKeyGone :
      (d : String) → Leads w (IsKeyGone w) (pack_certificate d) (λ _. IsKeyGone w) (IsKeyGone w)
  unfolding pack_certificate
  pack_certificate-IsKeyGone d = search (keeps_rules, other_command key_event) depth 40

  signed-IsKeyGone :
      Leads w (IsKeyGone w) (finally make_signature remove_key) (λ _. IsKeyGone w) (IsKeyGone w)
  signed-IsKeyGone =
      Leads-finally (λ tr. Unit {0}) make_signature remove_key (Leads-any make_signature)
        remove_key-IsKeyGone

  sign_root_image-IsKeyGone :
      (d : String) → Leads w (IsKeyGone w) (sign_root_image d) (λ _. IsKeyGone w) (IsKeyGone w)
  unfolding sign_root_image
  sign_root_image-IsKeyGone d =
      search (keeps_rules, other_command key_event, signed-IsKeyGone, pack_certificate-IsKeyGone)
        depth 40

  build_image-IsKeyGone :
      (u d : String) → Leads w (IsKeyGone w) (build_image u d) (λ _. IsKeyGone w) (IsKeyGone w)
  unfolding build_image copy_boot_files build_uki
  build_image-IsKeyGone u d =
      search (keeps_rules, other_command key_event, sign_root_image-IsKeyGone) depth 40

  release-IsKeyGone :
      (d : String) → Leads w (IsKeyGone w) (release_image d) (λ _. IsKeyGone w) (IsKeyGone w)
  unfolding release_image
  release-IsKeyGone d = search (keeps_rules, other_command key_event) depth 40

-- On every machine the recovery step leaves no signing key behind: it never ends, whether it
-- returns or raises, with the key generated and no attempt made to remove it since, if it starts
-- so.
pub execute-IsKeyGone :
    (w : Machine) (config : InstallerConfig)
    → Leads w (IsKeyGone w) (execute config) (λ _. IsKeyGone w) (IsKeyGone w)
unfolding execute sign_uki file_exists write_file
execute-IsKeyGone w config =
    search
      (
        keeps_rules,
        other_command key_event,
        build_image-IsKeyGone,
        release-IsKeyGone,
        Leads-finally (IsKeyGone w),
      )
      depth 60
