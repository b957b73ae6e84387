-- ===== src/Config/AsDict/Members.antt =====
-- models.py: tuples, optional values and members of an enumeration in `asdict`. A member is kept as its
-- text.
use arch_installer.Prelude.{List, [], ◌∷◌, Option, none, some}
use arch_installer.Config.Value.{Value, null, text, Items, nil, cons}
use arch_installer.Config.Models.Enums.{
  WipeMethod, CpuVendor, GpuVendor, GpuDriver, FirewallPolicy, Desktop, BackupCategory,
  wipe_method_text, cpu_vendor_text, gpu_vendor_text, gpu_driver_text, firewall_policy_text,
  desktop_text, backup_category_text,
}

module _ {A : Type 0} where
  unfoldable pub items_of : (A → Value) → List A → Items
  items_of f [] = nil
  items_of f (x ∷ xs) = cons (f x) (items_of f xs)

  unfoldable pub or_null : (A → Value) → Option A → Value
  or_null f none = null
  or_null f (some x) = f x

abbrev pub wipe_method_value : WipeMethod → Value
wipe_method_value e = text (wipe_method_text e)

abbrev pub cpu_vendor_value : CpuVendor → Value
cpu_vendor_value e = text (cpu_vendor_text e)

abbrev pub gpu_vendor_value : GpuVendor → Value
gpu_vendor_value e = text (gpu_vendor_text e)

abbrev pub gpu_driver_value : GpuDriver → Value
gpu_driver_value e = text (gpu_driver_text e)

abbrev pub firewall_policy_value : FirewallPolicy → Value
firewall_policy_value e = text (firewall_policy_text e)

abbrev pub desktop_value : Desktop → Value
desktop_value e = text (desktop_text e)

abbrev pub backup_category_value : BackupCategory → Value
backup_category_value e = text (backup_category_text e)
