-- ===== src/Executors/Boot/Texts.antt =====
-- executors/boot.py: the texts of the boot files, and the kernel command line.
use arch_installer.Prelude.{
  String, ◌<>◌, ◌==◌, not, ◌&&◌, Option, none, some, List, [], ◌∷◌, ◌++◌, map, keep, join, replace,
  ℤ, is_zero_int, show_int, if◌then◌else◌,
}
use arch_installer.Config.Models.Boot.{UkiVariantConfig, LoaderConfig, CmdlineHardeningConfig}
use arch_installer.Config.Models.Storage.{cryptroot_device, cryptroot_mapper_name}
use arch_installer.Config.Models.{InstallerConfig}

abbrev pub uki_directory : String
uki_directory = "/efi/EFI/Linux"

abbrev pub plain_variant : UkiVariantConfig
plain_variant = record { suffix = "default"; params = "" }

abbrev pub usb_storage_initramfs_modules : List String
usb_storage_initramfs_modules =
    "xhci_pci?" ∷ "ehci_pci?" ∷ "ohci_pci?" ∷ "uhci_hcd?" ∷ "usb_storage?" ∷ "uas?" ∷ "sd_mod?" ∷ []

pub record DetachedLuksHeader : Type 0 where
  pub encrypted_device_path : String
  pub header_partition_uuid : String

unfoldable pub mkinitcpio_conf : List String → List String → String
mkinitcpio_conf hooks modules =
    "# mkinitcpio configuration\n# generated by arch_installer\nMODULES=("
    <> join " " modules
    <> ")\nBINARIES=()\nFILES=()\nHOOKS=("
    <> join " " hooks
    <> ")\n"

unfoldable pub uki_path : String → UkiVariantConfig → String
uki_path kernel variant = uki_directory <> "/arch-" <> kernel <> "-" <> variant.suffix <> ".efi"

unfoldable pub cmdline_file : String → UkiVariantConfig → String
cmdline_file kernel variant = "/etc/kernel/cmdline-" <> kernel <> "-" <> variant.suffix

unfoldable pub preset_name : UkiVariantConfig → String
preset_name variant = replace "-" "_" variant.suffix

unfoldable pub preset_entry : String → UkiVariantConfig → String
preset_entry kernel variant =
    preset_name variant
    <> "_uki=\""
    <> uki_path kernel variant
    <> "\"\n"
    <> preset_name variant
    <> "_options=\"--splash /usr/share/systemd/bootctl/splash-arch.bmp --cmdline "
    <> cmdline_file kernel variant
    <> "\"\n"

unfoldable pub kernel_preset : String → List UkiVariantConfig → String
kernel_preset kernel variants =
    "# mkinitcpio preset file for "
    <> kernel
    <> " (UKI)\n# generated by arch_installer\nALL_config=\"/etc/mkinitcpio.conf\"\n"
    <> "ALL_kver=\"/boot/vmlinuz-"
    <> kernel
    <> "\"\nmicrocode=(/boot/*-ucode.img)\n\nPRESETS=("
    <> join " " (map (λ name. "'" <> name <> "'") ("fallback" ∷ map preset_name variants))
    <> ")\n\n# fallback initramfs for snapshot UKI generation\n"
    <> "fallback_image=\"/boot/initramfs-"
    <> kernel
    <> ".img\"\n\n"
    <> join "" (map (preset_entry kernel) variants)

unfoldable pub loader_conf : LoaderConfig → String
loader_conf loader =
    "# systemd-boot loader configuration\n# generated by arch_installer\ntimeout "
    <> show_int loader.timeout
    <> "\nconsole-mode "
    <> loader.console_mode
    <> "\neditor "
    <> (if loader.editor then "yes" else "no")
    <> "\n"

-- a parameter is left out at the empty text and at 0
unfoldable pub text_parameter : String → String → List String
text_parameter name value = if value == "" then [] else (name <> "=" <> value) ∷ []

unfoldable pub int_parameter : String → ℤ → List String
int_parameter name value = if is_zero_int value then [] else (name <> "=" <> show_int value) ∷ []

-- `asdict(cmdline.hardening).items()`, in the order of the fields
unfoldable pub hardening_parameters : CmdlineHardeningConfig → List String
hardening_parameters h =
    text_parameter "lockdown" h.lockdown
    ++ (text_parameter "iommu" h.iommu
        ++ (text_parameter "intel_iommu" h.intel_iommu
            ++ (text_parameter "amd_iommu" h.amd_iommu
                ++ (text_parameter "pti" h.pti
                    ++ (text_parameter "spectre_v2" h.spectre_v2
                        ++ (text_parameter "spec_store_bypass_disable" h.spec_store_bypass_disable
                            ++ (text_parameter "l1tf" h.l1tf
                                ++ (text_parameter "mds" h.mds
                                    ++ (text_parameter "srbds" h.srbds
                                        ++ (text_parameter "tsx_async_abort" h.tsx_async_abort
                                            ++ (int_parameter "init_on_alloc" h.init_on_alloc
                                                ++ int_parameter "init_on_free"
                                                    h.init_on_free)))))))))))

unfoldable pub detached_parameters : String → Option DetachedLuksHeader → List String
detached_parameters luks_uuid none = []
detached_parameters luks_uuid (some header) =
    ("rd.luks.data=" <> luks_uuid <> "=" <> header.encrypted_device_path)
    ∷ ("rd.luks.options=" <> luks_uuid <> "=header=/dev/disk/by-partuuid/"
        <> header.header_partition_uuid)
    ∷ []

unfoldable pub offset_parameter : Option String → List String
offset_parameter none = []
offset_parameter (some offset) = if offset == "" then [] else ("resume_offset=" <> offset) ∷ []

unfoldable pub resume_parameters : InstallerConfig → Option String → List String
resume_parameters config resume_offset =
    if config.storage.swap.enabled && config.storage.swap.hibernation
    then ("resume=" <> cryptroot_device) ∷ offset_parameter resume_offset
    else []

unfoldable pub cmdline_parts :
    InstallerConfig → String → Option DetachedLuksHeader → Option String → List String
cmdline_parts config luks_uuid detached_header resume_offset =
    let cmdline = config.boot.cmdline in
    (("rd.luks.name=" <> luks_uuid <> "=" <> cryptroot_mapper_name)
      ∷ ("root=" <> cryptroot_device)
      ∷ (if cmdline.read_write then "rw" else "ro")
      ∷ ("rootfstype=" <> cmdline.rootfstype)
      ∷ ("rootflags=" <> cmdline.rootflags)
      ∷ [])
    ++ (detached_parameters luks_uuid detached_header
        ++ ((if cmdline.quiet then "quiet" ∷ [] else [])
            ++ (hardening_parameters cmdline.hardening ++ resume_parameters config resume_offset)))

unfoldable pub kernel_cmdline :
    InstallerConfig → String → Option DetachedLuksHeader → Option String → String
kernel_cmdline config luks_uuid detached_header resume_offset =
    join " " (cmdline_parts config luks_uuid detached_header resume_offset)

unfoldable pub uki_variants : InstallerConfig → List UkiVariantConfig
uki_variants config =
    plain_variant
    ∷ keep (λ variant. not (variant.suffix == plain_variant.suffix)) config.boot.variants
