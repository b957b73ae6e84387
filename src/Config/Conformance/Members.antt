-- ===== src/Config/Conformance/Members.antt =====
-- Tuples, optional values and members of an enumeration have the declared types.
use arch_installer.Prelude.{
  ◌≡◌, refl, Bool, true, false, ◌&&◌, ◌||◌, List, [], ◌∷◌, Option, none, some,
}
use arch_installer.Config.Schema.{FieldType, tuple_type, optional_type}
use arch_installer.Config.Value.{Value, tuple}
use arch_installer.Config.Export.{conforms, all_items, is_null}
use arch_installer.Config.Models.Enums.{
  WipeMethod, CpuVendor, GpuVendor, GpuDriver, FirewallPolicy, Desktop, BackupCategory,
}
use arch_installer.Config.Declared.Members.{
  wipe_method_type, cpu_vendor_type, gpu_vendor_type, gpu_driver_type, firewall_policy_type,
  desktop_type, backup_category_type,
}
use arch_installer.Config.AsDict.Members.{
  items_of, or_null, wipe_method_value, cpu_vendor_value, gpu_vendor_value, gpu_driver_value,
  firewall_policy_value, desktop_value, backup_category_value,
}

-- two tests that hold at once
pub both : {a b : Bool} → a ≡ true → b ≡ true → (a && b) ≡ true
both p q = cc

either : (a : Bool) {b : Bool} → b ≡ true → (a || b) ≡ true
either true p = refl
either false p = p

module _ {A : Type 0} (t : FieldType) (f : A → Value) (h : (a : A) → conforms t (f a) ≡ true) where
  items-conform : (xs : List A) → all_items (conforms t) (items_of f xs) ≡ true
  unfolding items_of
  items-conform [] = refl
  items-conform (x ∷ xs) = both (h x) (items-conform xs)

  pub items_of-conforms : (xs : List A) → conforms (tuple_type t) (tuple (items_of f xs)) ≡ true
  unfolding conforms
  items_of-conforms xs = items-conform xs

  pub or_null-conforms : (x : Option A) → conforms (optional_type t) (or_null f x) ≡ true
  unfolding conforms or_null
  or_null-conforms none = refl
  or_null-conforms (some x) = either (is_null (f x)) (h x)

pub wipe_method-conforms : (e : WipeMethod) → conforms wipe_method_type (wipe_method_value e) ≡ true
unfolding conforms
wipe_method-conforms WipeMethod.quick = refl
wipe_method-conforms WipeMethod.secure = refl
wipe_method-conforms WipeMethod.discard = refl
wipe_method-conforms WipeMethod.skip = refl

pub cpu_vendor-conforms : (e : CpuVendor) → conforms cpu_vendor_type (cpu_vendor_value e) ≡ true
unfolding conforms
cpu_vendor-conforms CpuVendor.amd = refl
cpu_vendor-conforms CpuVendor.intel = refl
cpu_vendor-conforms CpuVendor.unknown = refl

pub gpu_vendor-conforms : (e : GpuVendor) → conforms gpu_vendor_type (gpu_vendor_value e) ≡ true
unfolding conforms
gpu_vendor-conforms GpuVendor.amd = refl
gpu_vendor-conforms GpuVendor.intel = refl
gpu_vendor-conforms GpuVendor.nvidia = refl
gpu_vendor-conforms GpuVendor.none = refl

pub gpu_driver-conforms : (e : GpuDriver) → conforms gpu_driver_type (gpu_driver_value e) ≡ true
unfolding conforms
gpu_driver-conforms GpuDriver.nouveau = refl
gpu_driver-conforms GpuDriver.nvidia_open = refl
gpu_driver-conforms GpuDriver.nvidia_dkms = refl
gpu_driver-conforms GpuDriver.vendor_default = refl

pub firewall_policy-conforms :
    (e : FirewallPolicy) → conforms firewall_policy_type (firewall_policy_value e) ≡ true
unfolding conforms
firewall_policy-conforms FirewallPolicy.allow = refl
firewall_policy-conforms FirewallPolicy.deny = refl
firewall_policy-conforms FirewallPolicy.reject = refl

pub desktop-conforms : (e : Desktop) → conforms desktop_type (desktop_value e) ≡ true
unfolding conforms
desktop-conforms Desktop.kde = refl
desktop-conforms Desktop.gnome = refl
desktop-conforms Desktop.hyprland = refl

pub backup_category-conforms :
    (e : BackupCategory) → conforms backup_category_type (backup_category_value e) ≡ true
unfolding conforms
backup_category-conforms BackupCategory.dotfiles = refl
backup_category-conforms BackupCategory.keepass = refl
backup_category-conforms BackupCategory.browser = refl
backup_category-conforms BackupCategory.system = refl
