-- ===== src/Executors/Boot/SecureBoot.antt =====
-- executors/boot.py: the Secure Boot keys of `KernelImagesStepExecutor`.
use arch_installer.Prelude.{
  String, ◌<>◌, ◌==◌, Bool, ◌&&◌, Option, none, some, List, [], ◌∷◌, contains, lower, strip,
  split_on, if◌then◌else◌,
}
use arch_installer.Core.Commands.{chroot}
use arch_installer.Core.Commands.Chroot
use arch_installer.Core.Exec.{Exec, Done, pure, attempt, do_attempt, success, for_each, ◌>>=◌, ◌>>◌}
use arch_installer.Config.Models.Boot.{SecureBootConfig, UkiVariantConfig}
use arch_installer.Executors.Base.{file_exists, sbctl_pk_key, sbctl_db_key}
use arch_installer.Executors.Boot.Texts.{uki_path}

-- the first line of the status that speaks of the setup mode
unfoldable pub setup_mode_answer : List String → Option Bool
setup_mode_answer [] = none
setup_mode_answer (line ∷ lines) =
    let rest = setup_mode_answer lines in
    if contains "setup mode" (lower line) then some (contains "enabled" (lower line)) else rest

unfoldable pub answer_or_efivar : Option Bool → Exec Bool
answer_or_efivar (some answer) = pure answer
answer_or_efivar none = do
  efivar ← attempt (chroot Chroot.read_setup_mode)
  pure (success efivar && strip efivar.stdout == "01")

unfoldable pub is_in_setup_mode : Exec Bool
is_in_setup_mode = do
  status ← attempt (chroot Chroot.secure_boot_status)
  answer_or_efivar (setup_mode_answer (split_on 10 status.stdout))

-- a failure is only warned of
unfoldable pub enroll_keys : Bool → Exec Done
enroll_keys include_microsoft =
    do_attempt (chroot (Chroot.enroll_keys (if include_microsoft then " --microsoft" else "")))

unfoldable pub ensure_keys : Exec Done
ensure_keys = do
  exist ← file_exists ("/mnt" <> sbctl_pk_key)
  if exist then pure tt else do_attempt (chroot Chroot.create_keys)

unfoldable pub enroll_in_setup_mode : SecureBootConfig → Bool → Exec Done
enroll_in_setup_mode secure_boot setup_mode =
    if setup_mode && secure_boot.enroll_keys
    then enroll_keys secure_boot.include_microsoft_keys
    else pure tt

unfoldable pub prepare_secure_boot : SecureBootConfig → Exec Done
prepare_secure_boot secure_boot = do
  setup_mode ← is_in_setup_mode
  ensure_keys
  enroll_in_setup_mode secure_boot setup_mode

unfoldable pub sign_if_present : String → Exec Done
sign_if_present path = do
  exists ← file_exists ("/mnt" <> path)
  if exists then do_attempt (chroot (Chroot.sign path)) else pure tt

unfoldable pub sign_ukis : List String → List UkiVariantConfig → Exec Done
sign_ukis kernels variants = do
  has_keys ← file_exists ("/mnt" <> sbctl_db_key)
  if has_keys
      then for_each kernels
          (λ kernel. for_each variants (λ variant. sign_if_present (uki_path kernel variant)))
      else pure tt
