-- ===== src/Executors/Boot/Emissions.antt =====
-- executors/boot.py: the commands of the kernel images step, but for the enrollment of keys.
use arch_installer.Prelude.{◌≡◌, String, Bool, true, false, ◌<>◌, Option, none, some, List, [], ◌∷◌}
use arch_installer.Errors.{Error}
use arch_installer.Core.Commands.{Command, overwrites, probe, files, chroot}
use arch_installer.Core.Commands.Probes.{Probe}
use arch_installer.Core.Commands.Files.{FileCommand}
use arch_installer.Core.Commands.Chroot
use arch_installer.Core.Commands.Chroot.{ChrootCommand}
use arch_installer.Core.Exec.{Machine, Event, ran, plain}
use arch_installer.Core.Exec.Devices.{DevicesIn, path_rules}
use arch_installer.Core.Exec.Emits.{Emits, emits_rules, Emits-bind}
use arch_installer.Config.Models.Boot.{SecureBootConfig, UkiVariantConfig}
use arch_installer.Config.Models.{InstallerConfig}
use arch_installer.Executors.Base.{
  file_exists, detect_luks_uuid, partition_uuid, stable_disk_path, write_file,
}
use arch_installer.Executors.Boot.SecureBoot.{
  answer_or_efivar, is_in_setup_mode, ensure_keys, prepare_secure_boot, sign_if_present, sign_ukis,
}
use arch_installer.Executors.Boot.Images
use arch_installer.Executors.Boot.Images.{
  require_path, find_header, detached_header, filefrag_offset, swapfile_resume_offset,
  require_luks_uuid, installed_kernels, kernels_or_raise, write_cmdline, write_kernel_files,
  require_kernels, build_kernel_images,
}

abbrev pub is_enrollment : Command → Bool
is_enrollment (chroot (Chroot.enroll_keys options)) = true
is_enrollment _ = false

-- Code of the kernel images step, with any condition on events that its commands meet.
module _ (w : Machine) (P : Event → Type 0) (reads : (c : Probe) → P (ran (plain (probe c))))
    (writes : (c : FileCommand) (o : Option String)
      → DevicesIn [] (overwrites (files c))
      → P (ran (record { command = files c; input = o })))
    (boots : (c : ChrootCommand)
      → is_enrollment (chroot c) ≡ false
      → P (ran (plain (chroot c)))) where
  installed_kernels-Emits : (ks : List String) → Emits w P (installed_kernels ks)
  unfolding installed_kernels file_exists
  installed_kernels-Emits [] = search emits_rules
  installed_kernels-Emits (k ∷ ks) =
      Emits-bind (file_exists ("/mnt/boot/vmlinuz-" <> k)) _ (search (emits_rules, reads) depth 30)
        λ found.
          Emits-bind (installed_kernels ks) _ (installed_kernels-Emits ks)
            λ rest. search emits_rules

  found_or_raise-Emits : (ks : List String) (e : Error) → Emits w P (kernels_or_raise e ks)
  unfolding kernels_or_raise
  found_or_raise-Emits [] e = search emits_rules
  found_or_raise-Emits (k ∷ ks) e = search emits_rules

  require_kernels-Emits :
      (repr : String → String) (config : InstallerConfig) → Emits w P (require_kernels repr config)
  unfolding require_kernels
  require_kernels-Emits repr config =
      search (emits_rules, installed_kernels-Emits, found_or_raise-Emits) depth 30

  detached_header-Emits : (config : InstallerConfig) → Emits w P (detached_header config)
  unfolding detached_header find_header require_path stable_disk_path partition_uuid
  detached_header-Emits config = search (emits_rules, reads) depth 60

  swapfile_resume_offset-Emits :
      (config : InstallerConfig) → Emits w P (swapfile_resume_offset config)
  unfolding swapfile_resume_offset filefrag_offset
  swapfile_resume_offset-Emits config = search (emits_rules, reads) depth 40

  require_luks_uuid-Emits : (config : InstallerConfig) → Emits w P (require_luks_uuid config)
  unfolding require_luks_uuid detect_luks_uuid
  require_luks_uuid-Emits config = search (emits_rules, reads) depth 40

  write_kernel_files-Emits :
      (cmdline : String) (vs : List UkiVariantConfig) (k : String)
      → Emits w P (write_kernel_files cmdline vs k)
  unfolding write_kernel_files write_cmdline write_file
  write_kernel_files-Emits cmdline vs k = search (emits_rules, writes, path_rules) depth 40

  sign_ukis-Emits : (ks : List String) (vs : List UkiVariantConfig) → Emits w P (sign_ukis ks vs)
  unfolding sign_ukis sign_if_present file_exists
  sign_ukis-Emits ks vs = search (emits_rules, reads, boots) depth 40

  pub ensure_keys-Emits : Emits w P ensure_keys
  unfolding ensure_keys file_exists
  ensure_keys-Emits = search (emits_rules, reads, boots) depth 40

  answer-Emits : (o : Option Bool) → Emits w P (answer_or_efivar o)
  unfolding answer_or_efivar
  answer-Emits none = search (emits_rules, boots) depth 30
  answer-Emits (some answer) = search emits_rules

  pub is_in_setup_mode-Emits : Emits w P is_in_setup_mode
  unfolding is_in_setup_mode
  is_in_setup_mode-Emits = search (emits_rules, boots, answer-Emits) depth 40

  module _ (prepare : (s : SecureBootConfig) → Emits w P (prepare_secure_boot s)) where
    build-Emits :
        (config : InstallerConfig) (ks : List String) (vs : List UkiVariantConfig)
        (cmdline : String)
        → Emits w P (build_kernel_images config ks vs cmdline)
    unfolding build_kernel_images write_file
    build-Emits config ks vs cmdline =
        search
          (
            emits_rules, writes, path_rules, boots, write_kernel_files-Emits, prepare,
            sign_ukis-Emits,
          )
          depth 40

    pub execute-Emits :
        (repr : String → String) (config : InstallerConfig) → Emits w P (Images.execute repr config)
    unfolding Images.execute write_file
    execute-Emits repr config =
        search
          (
            emits_rules, writes, path_rules, require_luks_uuid-Emits, require_kernels-Emits,
            detached_header-Emits, swapfile_resume_offset-Emits, build-Emits,
          )
          depth 40
