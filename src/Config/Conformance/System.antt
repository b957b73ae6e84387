-- ===== src/Config/Conformance/System.antt =====
-- The system, packages and graphics sections have the declared types.
use arch_installer.Prelude.{◌≡◌, refl, true}
use arch_installer.Config.Schema.{text_type, section_type}
use arch_installer.Config.Value.{text}
use arch_installer.Config.Export.{conforms, fields_conform}
use arch_installer.Config.Models.System.{
  UserConfig, LocaleConfig, PacmanMirrorConfig, SystemConfig, DesktopPackages, PackagesConfig,
  GpuDriverPackages, GpuConfig,
}
use arch_installer.Config.Declared.Members.{desktop_type}
use arch_installer.Config.Declared.System.{
  user_config_section, locale_config_section, pacman_mirror_config_section, system_config_section,
  desktop_packages_section, packages_config_section, gpu_driver_packages_section,
  gpu_config_section,
}
use arch_installer.Config.AsDict.Members.{desktop_value}
use arch_installer.Config.AsDict.System.{
  user_config_dict, locale_config_dict, pacman_mirror_config_dict, system_config_dict,
  desktop_packages_dict, packages_config_dict, gpu_driver_packages_dict, gpu_config_dict,
}
use arch_installer.Config.Conformance.Members.{
  both, items_of-conforms, cpu_vendor-conforms, gpu_vendor-conforms, gpu_driver-conforms,
  desktop-conforms,
}

pub user_config_dict-conforms :
    (c : UserConfig) → conforms (section_type user_config_section) (user_config_dict c) ≡ true
unfolding user_config_dict conforms fields_conform
user_config_dict-conforms c = both (items_of-conforms text_type text (λ _. refl) c.groups) (refl)

pub locale_config_dict-conforms :
    (c : LocaleConfig) → conforms (section_type locale_config_section) (locale_config_dict c) ≡ true
unfolding locale_config_dict conforms fields_conform
locale_config_dict-conforms c = refl

pub pacman_mirror_config_dict-conforms :
    (c : PacmanMirrorConfig)
    → conforms (section_type pacman_mirror_config_section) (pacman_mirror_config_dict c) ≡ true
unfolding pacman_mirror_config_dict conforms fields_conform
pacman_mirror_config_dict-conforms c =
    both (items_of-conforms text_type text (λ _. refl) c.mirrors)
      (both (items_of-conforms text_type text (λ _. refl) c.reflector_countries) (refl))

pub system_config_dict-conforms :
    (c : SystemConfig) → conforms (section_type system_config_section) (system_config_dict c) ≡ true
unfolding system_config_dict conforms fields_conform
system_config_dict-conforms c = both (locale_config_dict-conforms c.locale) (
    both (user_config_dict-conforms c.user) (
      both (pacman_mirror_config_dict-conforms c.mirrors)
        (both (cpu_vendor-conforms c.cpu_vendor) (refl))))

pub desktop_packages_dict-conforms :
    (c : DesktopPackages)
    → conforms (section_type desktop_packages_section) (desktop_packages_dict c) ≡ true
unfolding desktop_packages_dict conforms fields_conform
desktop_packages_dict-conforms c = both (items_of-conforms text_type text (λ _. refl) c.kde) (
    both (items_of-conforms text_type text (λ _. refl) c.gnome)
      (both (items_of-conforms text_type text (λ _. refl) c.hyprland) (refl)))

pub packages_config_dict-conforms :
    (c : PackagesConfig)
    → conforms (section_type packages_config_section) (packages_config_dict c) ≡ true
unfolding packages_config_dict conforms fields_conform
packages_config_dict-conforms c = both (items_of-conforms text_type text (λ _. refl) c.base) (
    both (desktop_packages_dict-conforms c.desktops) (
      both (items_of-conforms desktop_type desktop_value desktop-conforms c.selected_desktops) (
        both (items_of-conforms text_type text (λ _. refl) c.display_manager)
          (both (items_of-conforms text_type text (λ _. refl) c.cataloged) (refl)))))

pub gpu_driver_packages_dict-conforms :
    (c : GpuDriverPackages)
    → conforms (section_type gpu_driver_packages_section) (gpu_driver_packages_dict c) ≡ true
unfolding gpu_driver_packages_dict conforms fields_conform
gpu_driver_packages_dict-conforms c = both (items_of-conforms text_type text (λ _. refl) c.amd) (
    both (items_of-conforms text_type text (λ _. refl) c.intel) (
      both (items_of-conforms text_type text (λ _. refl) c.nouveau) (
        both (items_of-conforms text_type text (λ _. refl) c.nvidia_dkms)
          (both (items_of-conforms text_type text (λ _. refl) c.nvidia_open) (refl)))))

pub gpu_config_dict-conforms :
    (c : GpuConfig) → conforms (section_type gpu_config_section) (gpu_config_dict c) ≡ true
unfolding gpu_config_dict conforms fields_conform
gpu_config_dict-conforms c = both (gpu_vendor-conforms c.vendor) (
    both (gpu_driver-conforms c.driver) (both (gpu_driver_packages_dict-conforms c.drivers) (refl)))
