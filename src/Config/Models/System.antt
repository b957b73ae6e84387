-- ===== src/Config/Models/System.antt =====
-- models.py: the system, package and graphics sections.
use arch_installer.Prelude.{String, ◌<>◌, Bool, true, false, List, [], ◌∷◌, keep}
use arch_installer.Config.Models.Enums.{
  CpuVendor, GpuVendor, GpuDriver, Desktop, is_proprietary_nvidia,
}

pub record UserConfig : Type 0 where
  pub name : String
  pub groups : List String

pub record LocaleConfig : Type 0 where
  pub language : String
  pub encoding : String
  pub keymap : String
  pub monetary : String
  pub time_format : String
  pub numeric : String
  pub paper : String

unfoldable pub full_locale : LocaleConfig → String
full_locale l = l.language <> "." <> l.encoding

pub record PacmanMirrorConfig : Type 0 where
  pub mirrors : List String
  pub use_reflector : Bool
  pub reflector_countries : List String

pub record SystemConfig : Type 0 where
  pub hostname : String
  pub timezone : String
  pub locale : LocaleConfig
  pub user : UserConfig
  pub mirrors : PacmanMirrorConfig
  pub cpu_vendor : CpuVendor

pub record DesktopPackages : Type 0 where
  pub kde : List String
  pub gnome : List String
  pub hyprland : List String

unfoldable pub packages_for : DesktopPackages → Desktop → List String
packages_for p Desktop.kde = p.kde
packages_for p Desktop.gnome = p.gnome
packages_for p Desktop.hyprland = p.hyprland

abbrev has_packages : List String → Bool
has_packages [] = false
has_packages (name ∷ names) = true

unfoldable configured_desktops : DesktopPackages → List Desktop
unfolding packages_for
configured_desktops p =
    keep (λ desktop. has_packages (packages_for p desktop))
      (Desktop.kde ∷ Desktop.gnome ∷ Desktop.hyprland ∷ [])

pub record PackagesConfig : Type 0 where
  pub base : List String
  pub desktops : DesktopPackages
  pub selected_desktops : List Desktop
  pub display_manager : List String
  pub cataloged : List String

pub record GpuDriverPackages : Type 0 where
  pub amd : List String
  pub intel : List String
  pub nouveau : List String
  pub nvidia_dkms : List String
  pub nvidia_open : List String

pub record GpuConfig : Type 0 where
  pub vendor : GpuVendor
  pub driver : GpuDriver
  pub drivers : GpuDriverPackages

unfoldable pub uses_proprietary_nvidia_driver : GpuConfig → Bool
unfolding is_proprietary_nvidia
uses_proprietary_nvidia_driver g = is_proprietary_nvidia g.vendor g.driver
