-- ===== src/Config/Declared/Boot.antt =====
-- models.py: the fields of the boot sections, with their types.
use arch_installer.Config.Schema.{
  text_type, int_type, bool_type, tuple_type, section_type, Section, done, declare,
}

abbrev pub kernel_config_section : Section
kernel_config_section = declare "name" text_type (declare "package" text_type (done))

abbrev pub uki_variant_config_section : Section
uki_variant_config_section = declare "suffix" text_type (declare "params" text_type (done))

abbrev pub cmdline_hardening_config_section : Section
cmdline_hardening_config_section = declare "lockdown" text_type (
    declare "iommu" text_type (
      declare "intel_iommu" text_type (
        declare "amd_iommu" text_type (
          declare "pti" text_type (
            declare "spectre_v2" text_type (
              declare "spec_store_bypass_disable" text_type (
                declare "l1tf" text_type (
                  declare "mds" text_type (
                    declare "srbds" text_type (
                      declare "tsx_async_abort" text_type (
                        declare "init_on_alloc" int_type
                          (declare "init_on_free" int_type (done)))))))))))))

abbrev pub cmdline_config_section : Section
cmdline_config_section = declare "rootflags" text_type (
    declare "rootfstype" text_type (
      declare "rw" bool_type (
        declare "quiet" bool_type
          (declare "hardening" (section_type cmdline_hardening_config_section) (done)))))

abbrev pub loader_config_section : Section
loader_config_section =
    declare "timeout" int_type
      (declare "console_mode" text_type (declare "editor" bool_type (done)))

abbrev pub secure_boot_config_section : Section
secure_boot_config_section =
    declare "enroll_keys" bool_type (declare "include_microsoft_keys" bool_type (done))

abbrev pub boot_config_section : Section
boot_config_section = declare "kernels" (tuple_type (section_type kernel_config_section)) (
    declare "selected_kernels" (tuple_type text_type) (
      declare "variants" (tuple_type (section_type uki_variant_config_section)) (
        declare "cmdline" (section_type cmdline_config_section) (
          declare "loader" (section_type loader_config_section) (
            declare "hooks" (tuple_type text_type) (
              declare "secure_boot" (section_type secure_boot_config_section)
                (declare "enable_snapshot_boot" bool_type (done))))))))
