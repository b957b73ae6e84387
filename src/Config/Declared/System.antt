-- ===== src/Config/Declared/System.antt =====
-- models.py: the fields of the system, packages and graphics sections, with their types.
use arch_installer.Config.Schema.{
  text_type, bool_type, tuple_type, section_type, Section, done, declare,
}
use arch_installer.Config.Declared.Members.{
  cpu_vendor_type, gpu_vendor_type, gpu_driver_type, desktop_type,
}

abbrev pub user_config_section : Section
user_config_section = declare "name" text_type (declare "groups" (tuple_type text_type) (done))

abbrev pub locale_config_section : Section
locale_config_section = declare "language" text_type (
    declare "encoding" text_type (
      declare "keymap" text_type (
        declare "monetary" text_type (
          declare "time_format" text_type
            (declare "numeric" text_type (declare "paper" text_type (done)))))))

abbrev pub pacman_mirror_config_section : Section
pacman_mirror_config_section = declare "mirrors" (tuple_type text_type) (
    declare "use_reflector" bool_type (declare "reflector_countries" (tuple_type text_type) (done)))

abbrev pub system_config_section : Section
system_config_section = declare "hostname" text_type (
    declare "timezone" text_type (
      declare "locale" (section_type locale_config_section) (
        declare "user" (section_type user_config_section) (
          declare "mirrors" (section_type pacman_mirror_config_section)
            (declare "cpu_vendor" cpu_vendor_type (done))))))

abbrev pub desktop_packages_section : Section
desktop_packages_section =
    declare "kde" (tuple_type text_type)
      (declare "gnome" (tuple_type text_type) (declare "hyprland" (tuple_type text_type) (done)))

abbrev pub packages_config_section : Section
packages_config_section = declare "base" (tuple_type text_type) (
    declare "desktops" (section_type desktop_packages_section) (
      declare "selected_desktops" (tuple_type desktop_type) (
        declare "display_manager" (tuple_type text_type)
          (declare "cataloged" (tuple_type text_type) (done)))))

abbrev pub gpu_driver_packages_section : Section
gpu_driver_packages_section = declare "amd" (tuple_type text_type) (
    declare "intel" (tuple_type text_type) (
      declare "nouveau" (tuple_type text_type) (
        declare "nvidia_dkms" (tuple_type text_type)
          (declare "nvidia_open" (tuple_type text_type) (done)))))

abbrev pub gpu_config_section : Section
gpu_config_section = declare "vendor" gpu_vendor_type (
    declare "driver" gpu_driver_type
      (declare "drivers" (section_type gpu_driver_packages_section) (done)))
