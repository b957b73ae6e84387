-- ===== src/Config/Instances/Boot.antt =====
-- The values of the boot sections.
use arch_installer.Prelude.{refl}
use arch_installer.Config.Schema.{section_type}
use arch_installer.Config.Declared.Boot.{
  kernel_config_section, uki_variant_config_section, cmdline_hardening_config_section,
  cmdline_config_section, loader_config_section, secure_boot_config_section, boot_config_section,
}
use arch_installer.Config.AsDict.Boot.{
  kernel_config_dict, uki_variant_config_dict, cmdline_hardening_config_dict, cmdline_config_dict,
  loader_config_dict, secure_boot_config_dict, boot_config_dict,
}
use arch_installer.Config.Instances.Members.{
  Covers, text-Covers, int-Covers, bool-Covers, ◌&◌, done-Covers, section-Covers, tuple-Covers,
}

pub kernel_config_dict-Covers : Covers (section_type kernel_config_section) kernel_config_dict
unfolding kernel_config_dict
kernel_config_dict-Covers =
    section-Covers (text-Covers & text-Covers & done-Covers)
      (λ p. record { name = p.first; package_name = p.rest.first }) λ p. refl

pub uki_variant_config_dict-Covers :
    Covers (section_type uki_variant_config_section) uki_variant_config_dict
unfolding uki_variant_config_dict
uki_variant_config_dict-Covers =
    section-Covers (text-Covers & text-Covers & done-Covers)
      (λ p. record { suffix = p.first; params = p.rest.first }) λ p. refl

pub cmdline_hardening_config_dict-Covers :
    Covers (section_type cmdline_hardening_config_section) cmdline_hardening_config_dict
unfolding cmdline_hardening_config_dict
cmdline_hardening_config_dict-Covers =
    section-Covers
      (text-Covers & text-Covers & text-Covers & text-Covers & text-Covers & text-Covers
        & text-Covers & text-Covers & text-Covers & text-Covers & text-Covers & int-Covers
        & int-Covers & done-Covers)
      (λ p. record {
        lockdown = p.first;
        iommu = p.rest.first;
        intel_iommu = p.rest.rest.first;
        amd_iommu = p.rest.rest.rest.first;
        pti = p.rest.rest.rest.rest.first;
        spectre_v2 = p.rest.rest.rest.rest.rest.first;
        spec_store_bypass_disable = p.rest.rest.rest.rest.rest.rest.first;
        l1tf = p.rest.rest.rest.rest.rest.rest.rest.first;
        mds = p.rest.rest.rest.rest.rest.rest.rest.rest.first;
        srbds = p.rest.rest.rest.rest.rest.rest.rest.rest.rest.first;
        tsx_async_abort = p.rest.rest.rest.rest.rest.rest.rest.rest.rest.rest.first;
        init_on_alloc = p.rest.rest.rest.rest.rest.rest.rest.rest.rest.rest.rest.first;
        init_on_free = p.rest.rest.rest.rest.rest.rest.rest.rest.rest.rest.rest.rest.first;
      })
      λ p. refl

pub cmdline_config_dict-Covers : Covers (section_type cmdline_config_section) cmdline_config_dict
unfolding cmdline_config_dict
cmdline_config_dict-Covers =
    section-Covers
      (text-Covers & text-Covers & bool-Covers & bool-Covers & cmdline_hardening_config_dict-Covers
        & done-Covers)
      (λ p. record {
        rootflags = p.first;
        rootfstype = p.rest.first;
        read_write = p.rest.rest.first;
        quiet = p.rest.rest.rest.first;
        hardening = p.rest.rest.rest.rest.first;
      })
      λ p. refl

pub loader_config_dict-Covers : Covers (section_type loader_config_section) loader_config_dict
unfolding loader_config_dict
loader_config_dict-Covers =
    section-Covers (int-Covers & text-Covers & bool-Covers & done-Covers)
      (λ p. record { timeout = p.first; console_mode = p.rest.first; editor = p.rest.rest.first })
      λ p. refl

pub secure_boot_config_dict-Covers :
    Covers (section_type secure_boot_config_section) secure_boot_config_dict
unfolding secure_boot_config_dict
secure_boot_config_dict-Covers =
    section-Covers (bool-Covers & bool-Covers & done-Covers)
      (λ p. record { enroll_keys = p.first; include_microsoft_keys = p.rest.first }) λ p. refl

pub boot_config_dict-Covers : Covers (section_type boot_config_section) boot_config_dict
unfolding boot_config_dict
boot_config_dict-Covers =
    section-Covers
      ((tuple-Covers kernel_config_dict-Covers)
        & (tuple-Covers text-Covers)
        & (tuple-Covers uki_variant_config_dict-Covers)
        & cmdline_config_dict-Covers
        & loader_config_dict-Covers
        & (tuple-Covers text-Covers)
        & secure_boot_config_dict-Covers
        & bool-Covers
        & done-Covers)
      (λ p. record {
        kernels = p.first;
        selected_kernels = p.rest.first;
        variants = p.rest.rest.first;
        cmdline = p.rest.rest.rest.first;
        loader = p.rest.rest.rest.rest.first;
        hooks = p.rest.rest.rest.rest.rest.first;
        secure_boot = p.rest.rest.rest.rest.rest.rest.first;
        enable_snapshot_boot = p.rest.rest.rest.rest.rest.rest.rest.first;
      })
      λ p. refl
