-- ===== src/Config/Instances/System.antt =====
-- The values of the system, packages and graphics sections.
use arch_installer.Prelude.{refl}
use arch_installer.Config.Schema.{section_type}
use arch_installer.Config.Declared.System.{
  user_config_section, locale_config_section, pacman_mirror_config_section, system_config_section,
  desktop_packages_section, packages_config_section, gpu_driver_packages_section,
  gpu_config_section,
}
use arch_installer.Config.AsDict.System.{
  user_config_dict, locale_config_dict, pacman_mirror_config_dict, system_config_dict,
  desktop_packages_dict, packages_config_dict, gpu_driver_packages_dict, gpu_config_dict,
}
use arch_installer.Config.Instances.Members.{
  Covers, text-Covers, bool-Covers, ◌&◌, done-Covers, section-Covers, tuple-Covers,
  cpu_vendor_value-Covers, gpu_vendor_value-Covers, gpu_driver_value-Covers, desktop_value-Covers,
}

pub user_config_dict-Covers : Covers (section_type user_config_section) user_config_dict
unfolding user_config_dict
user_config_dict-Covers =
    section-Covers (text-Covers & (tuple-Covers text-Covers) & done-Covers)
      (λ p. record { name = p.first; groups = p.rest.first }) λ p. refl

pub locale_config_dict-Covers : Covers (section_type locale_config_section) locale_config_dict
unfolding locale_config_dict
locale_config_dict-Covers =
    section-Covers
      (text-Covers & text-Covers & text-Covers & text-Covers & text-Covers & text-Covers
        & text-Covers & done-Covers)
      (λ p. record {
        language = p.first;
        encoding = p.rest.first;
        keymap = p.rest.rest.first;
        monetary = p.rest.rest.rest.first;
        time_format = p.rest.rest.rest.rest.first;
        numeric = p.rest.rest.rest.rest.rest.first;
        paper = p.rest.rest.rest.rest.rest.rest.first;
      })
      λ p. refl

pub pacman_mirror_config_dict-Covers :
    Covers (section_type pacman_mirror_config_section) pacman_mirror_config_dict
unfolding pacman_mirror_config_dict
pacman_mirror_config_dict-Covers =
    section-Covers
      ((tuple-Covers text-Covers) & bool-Covers & (tuple-Covers text-Covers) & done-Covers)
      (λ p. record {
        mirrors = p.first;
        use_reflector = p.rest.first;
        reflector_countries = p.rest.rest.first;
      })
      λ p. refl

pub system_config_dict-Covers : Covers (section_type system_config_section) system_config_dict
unfolding system_config_dict
system_config_dict-Covers =
    section-Covers
      (text-Covers & text-Covers & locale_config_dict-Covers & user_config_dict-Covers
        & pacman_mirror_config_dict-Covers & cpu_vendor_value-Covers & done-Covers)
      (λ p. record {
        hostname = p.first;
        timezone = p.rest.first;
        locale = p.rest.rest.first;
        user = p.rest.rest.rest.first;
        mirrors = p.rest.rest.rest.rest.first;
        cpu_vendor = p.rest.rest.rest.rest.rest.first;
      })
      λ p. refl

pub desktop_packages_dict-Covers :
    Covers (section_type desktop_packages_section) desktop_packages_dict
unfolding desktop_packages_dict
desktop_packages_dict-Covers =
    section-Covers
      ((tuple-Covers text-Covers)
        & (tuple-Covers text-Covers)
        & (tuple-Covers text-Covers)
        & done-Covers)
      (λ p. record { kde = p.first; gnome = p.rest.first; hyprland = p.rest.rest.first }) λ p. refl

pub packages_config_dict-Covers : Covers (section_type packages_config_section) packages_config_dict
unfolding packages_config_dict
packages_config_dict-Covers =
    section-Covers
      ((tuple-Covers text-Covers)
        & desktop_packages_dict-Covers
        & (tuple-Covers desktop_value-Covers)
        & (tuple-Covers text-Covers)
        & (tuple-Covers text-Covers)
        & done-Covers)
      (λ p. record {
        base = p.first;
        desktops = p.rest.first;
        selected_desktops = p.rest.rest.first;
        display_manager = p.rest.rest.rest.first;
        cataloged = p.rest.rest.rest.rest.first;
      })
      λ p. refl

pub gpu_driver_packages_dict-Covers :
    Covers (section_type gpu_driver_packages_section) gpu_driver_packages_dict
unfolding gpu_driver_packages_dict
gpu_driver_packages_dict-Covers =
    section-Covers
      ((tuple-Covers text-Covers)
        & (tuple-Covers text-Covers)
        & (tuple-Covers text-Covers)
        & (tuple-Covers text-Covers)
        & (tuple-Covers text-Covers)
        & done-Covers)
      (λ p. record {
        amd = p.first;
        intel = p.rest.first;
        nouveau = p.rest.rest.first;
        nvidia_dkms = p.rest.rest.rest.first;
        nvidia_open = p.rest.rest.rest.rest.first;
      })
      λ p. refl

pub gpu_config_dict-Covers : Covers (section_type gpu_config_section) gpu_config_dict
unfolding gpu_config_dict
gpu_config_dict-Covers =
    section-Covers
      (gpu_vendor_value-Covers & gpu_driver_value-Covers & gpu_driver_packages_dict-Covers
        & done-Covers)
      (λ p. record { vendor = p.first; driver = p.rest.first; drivers = p.rest.rest.first })
      λ p. refl
