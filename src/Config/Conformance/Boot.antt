-- ===== src/Config/Conformance/Boot.antt =====
-- The boot sections have the declared types.
use arch_installer.Prelude.{◌≡◌, refl, true}
use arch_installer.Config.Schema.{text_type, section_type}
use arch_installer.Config.Value.{text}
use arch_installer.Config.Export.{conforms, fields_conform}
use arch_installer.Config.Models.Boot.{
  KernelConfig, UkiVariantConfig, CmdlineHardeningConfig, CmdlineConfig, LoaderConfig,
  SecureBootConfig, BootConfig,
}
use arch_installer.Config.Declared.Boot.{
  kernel_config_section, uki_variant_config_section, cmdline_hardening_config_section,
  cmdline_config_section, loader_config_section, secure_boot_config_section, boot_config_section,
}
use arch_installer.Config.AsDict.Boot.{
  kernel_config_dict, uki_variant_config_dict, cmdline_hardening_config_dict, cmdline_config_dict,
  loader_config_dict, secure_boot_config_dict, boot_config_dict,
}
use arch_installer.Config.Conformance.Members.{both, items_of-conforms}

pub kernel_config_dict-conforms :
    (c : KernelConfig) → conforms (section_type kernel_config_section) (kernel_config_dict c) ≡ true
unfolding kernel_config_dict conforms fields_conform
kernel_config_dict-conforms c = refl

pub uki_variant_config_dict-conforms :
    (c : UkiVariantConfig)
    → conforms (section_type uki_variant_config_section) (uki_variant_config_dict c) ≡ true
unfolding uki_variant_config_dict conforms fields_conform
uki_variant_config_dict-conforms c = refl

pub cmdline_hardening_config_dict-conforms :
    (c : CmdlineHardeningConfig)
    → conforms (section_type cmdline_hardening_config_section) (cmdline_hardening_config_dict c)
      ≡ true
unfolding cmdline_hardening_config_dict conforms fields_conform
cmdline_hardening_config_dict-conforms c = refl

pub cmdline_config_dict-conforms :
    (c : CmdlineConfig)
    → conforms (section_type cmdline_config_section) (cmdline_config_dict c) ≡ true
unfolding cmdline_config_dict conforms fields_conform
cmdline_config_dict-conforms c = both (cmdline_hardening_config_dict-conforms c.hardening) (refl)

pub loader_config_dict-conforms :
    (c : LoaderConfig) → conforms (section_type loader_config_section) (loader_config_dict c) ≡ true
unfolding loader_config_dict conforms fields_conform
loader_config_dict-conforms c = refl

pub secure_boot_config_dict-conforms :
    (c : SecureBootConfig)
    → conforms (section_type secure_boot_config_section) (secure_boot_config_dict c) ≡ true
unfolding secure_boot_config_dict conforms fields_conform
secure_boot_config_dict-conforms c = refl

pub boot_config_dict-conforms :
    (c : BootConfig) → conforms (section_type boot_config_section) (boot_config_dict c) ≡ true
unfolding boot_config_dict conforms fields_conform
boot_config_dict-conforms c =
    both
      (items_of-conforms (section_type kernel_config_section) kernel_config_dict
        kernel_config_dict-conforms c.kernels)
      (both (items_of-conforms text_type text (λ _. refl) c.selected_kernels) (
        both
          (items_of-conforms (section_type uki_variant_config_section) uki_variant_config_dict
            uki_variant_config_dict-conforms c.variants)
          (both (cmdline_config_dict-conforms c.cmdline) (
            both (loader_config_dict-conforms c.loader) (
              both (items_of-conforms text_type text (λ _. refl) c.hooks)
                (both (secure_boot_config_dict-conforms c.secure_boot) (refl)))))))
