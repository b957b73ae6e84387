-- ===== src/Config/AsDict/System.antt =====
-- models.py: `asdict` of the system, packages and graphics sections.
use arch_installer.Config.Value.{Value, bool, text, tuple, dict, end, field}
use arch_installer.Config.Models.System.{
  UserConfig, LocaleConfig, PacmanMirrorConfig, SystemConfig, DesktopPackages, PackagesConfig,
  GpuDriverPackages, GpuConfig,
}
use arch_installer.Config.AsDict.Members.{
  items_of, cpu_vendor_value, gpu_vendor_value, gpu_driver_value, desktop_value,
}

unfoldable pub user_config_dict : UserConfig → Value
unfolding items_of
user_config_dict c =
    dict (field "name" (text c.name) (field "groups" (tuple (items_of text c.groups)) (end)))

unfoldable pub locale_config_dict : LocaleConfig → Value
locale_config_dict c = dict (
    field "language" (text c.language) (
      field "encoding" (text c.encoding) (
        field "keymap" (text c.keymap) (
          field "monetary" (text c.monetary) (
            field "time_format" (text c.time_format)
              (field "numeric" (text c.numeric) (field "paper" (text c.paper) (end))))))))

unfoldable pub pacman_mirror_config_dict : PacmanMirrorConfig → Value
unfolding items_of
pacman_mirror_config_dict c = dict (
    field "mirrors" (tuple (items_of text c.mirrors)) (
      field "use_reflector" (bool c.use_reflector)
        (field "reflector_countries" (tuple (items_of text c.reflector_countries)) (end))))

unfoldable pub system_config_dict : SystemConfig → Value
unfolding locale_config_dict pacman_mirror_config_dict user_config_dict
system_config_dict c = dict (
    field "hostname" (text c.hostname) (
      field "timezone" (text c.timezone) (
        field "locale" (locale_config_dict c.locale) (
          field "user" (user_config_dict c.user) (
            field "mirrors" (pacman_mirror_config_dict c.mirrors)
              (field "cpu_vendor" (cpu_vendor_value c.cpu_vendor) (end)))))))

unfoldable pub desktop_packages_dict : DesktopPackages → Value
unfolding items_of
desktop_packages_dict c = dict (
    field "kde" (tuple (items_of text c.kde)) (
      field "gnome" (tuple (items_of text c.gnome))
        (field "hyprland" (tuple (items_of text c.hyprland)) (end))))

unfoldable pub packages_config_dict : PackagesConfig → Value
unfolding desktop_packages_dict items_of
packages_config_dict c = dict (
    field "base" (tuple (items_of text c.base)) (
      field "desktops" (desktop_packages_dict c.desktops) (
        field "selected_desktops" (tuple (items_of desktop_value c.selected_desktops)) (
          field "display_manager" (tuple (items_of text c.display_manager))
            (field "cataloged" (tuple (items_of text c.cataloged)) (end))))))

unfoldable pub gpu_driver_packages_dict : GpuDriverPackages → Value
unfolding items_of
gpu_driver_packages_dict c = dict (
    field "amd" (tuple (items_of text c.amd)) (
      field "intel" (tuple (items_of text c.intel)) (
        field "nouveau" (tuple (items_of text c.nouveau)) (
          field "nvidia_dkms" (tuple (items_of text c.nvidia_dkms))
            (field "nvidia_open" (tuple (items_of text c.nvidia_open)) (end))))))

unfoldable pub gpu_config_dict : GpuConfig → Value
unfolding gpu_driver_packages_dict
gpu_config_dict c = dict (
    field "vendor" (gpu_vendor_value c.vendor) (
      field "driver" (gpu_driver_value c.driver)
        (field "drivers" (gpu_driver_packages_dict c.drivers) (end))))
