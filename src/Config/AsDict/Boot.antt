-- ===== src/Config/AsDict/Boot.antt =====
-- models.py: `asdict` of the boot sections.
use arch_installer.Config.Value.{Value, bool, int, text, tuple, dict, end, field}
use arch_installer.Config.Models.Boot.{
  KernelConfig, UkiVariantConfig, CmdlineHardeningConfig, CmdlineConfig, LoaderConfig,
  SecureBootConfig, BootConfig,
}
use arch_installer.Config.AsDict.Members.{items_of}

unfoldable pub kernel_config_dict : KernelConfig → Value
kernel_config_dict c =
    dict (field "name" (text c.name) (field "package" (text c.package_name) (end)))

unfoldable pub uki_variant_config_dict : UkiVariantConfig → Value
uki_variant_config_dict c =
    dict (field "suffix" (text c.suffix) (field "params" (text c.params) (end)))

unfoldable pub cmdline_hardening_config_dict : CmdlineHardeningConfig → Value
cmdline_hardening_config_dict c = dict (
    field "lockdown" (text c.lockdown) (
      field "iommu" (text c.iommu) (
        field "intel_iommu" (text c.intel_iommu) (
          field "amd_iommu" (text c.amd_iommu) (
            field "pti" (text c.pti) (
              field "spectre_v2" (text c.spectre_v2) (
                field "spec_store_bypass_disable" (text c.spec_store_bypass_disable) (
                  field "l1tf" (text c.l1tf) (
                    field "mds" (text c.mds) (
                      field "srbds" (text c.srbds) (
                        field "tsx_async_abort" (text c.tsx_async_abort) (
                          field "init_on_alloc" (int c.init_on_alloc)
                            (field "init_on_free" (int c.init_on_free) (end))))))))))))))

unfoldable pub cmdline_config_dict : CmdlineConfig → Value
unfolding cmdline_hardening_config_dict
cmdline_config_dict c = dict (
    field "rootflags" (text c.rootflags) (
      field "rootfstype" (text c.rootfstype) (
        field "rw" (bool c.read_write) (
          field "quiet" (bool c.quiet)
            (field "hardening" (cmdline_hardening_config_dict c.hardening) (end))))))

unfoldable pub loader_config_dict : LoaderConfig → Value
loader_config_dict c = dict (
    field "timeout" (int c.timeout)
      (field "console_mode" (text c.console_mode) (field "editor" (bool c.editor) (end))))

unfoldable pub secure_boot_config_dict : SecureBootConfig → Value
secure_boot_config_dict c = dict (
    field "enroll_keys" (bool c.enroll_keys)
      (field "include_microsoft_keys" (bool c.include_microsoft_keys) (end)))

unfoldable pub boot_config_dict : BootConfig → Value
unfolding cmdline_config_dict items_of kernel_config_dict loader_config_dict secure_boot_config_dict
    uki_variant_config_dict
boot_config_dict c = dict (
    field "kernels" (tuple (items_of kernel_config_dict c.kernels)) (
      field "selected_kernels" (tuple (items_of text c.selected_kernels)) (
        field "variants" (tuple (items_of uki_variant_config_dict c.variants)) (
          field "cmdline" (cmdline_config_dict c.cmdline) (
            field "loader" (loader_config_dict c.loader) (
              field "hooks" (tuple (items_of text c.hooks)) (
                field "secure_boot" (secure_boot_config_dict c.secure_boot)
                  (field "enable_snapshot_boot" (bool c.enable_snapshot_boot) (end)))))))))
