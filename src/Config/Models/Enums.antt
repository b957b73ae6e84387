-- ===== src/Config/Models/Enums.antt =====
-- models.py: the enumerations, with the text of each member.
use arch_installer.Prelude.{String, Bool, true, false, ◌&&◌, not}

pub data WipeMethod : Type 0 where
  quick secure discard skip : WipeMethod

pub data CpuVendor : Type 0 where
  amd intel unknown : CpuVendor

pub data GpuVendor : Type 0 where
  amd intel nvidia none : GpuVendor

pub data GpuDriver : Type 0 where
  nouveau nvidia_open nvidia_dkms vendor_default : GpuDriver

pub data FirewallPolicy : Type 0 where
  allow deny reject : FirewallPolicy

pub data Desktop : Type 0 where
  kde gnome hyprland : Desktop

pub data BackupCategory : Type 0 where
  dotfiles keepass browser system : BackupCategory

abbrev pub wipe_method_text : WipeMethod → String
wipe_method_text WipeMethod.quick = "quick"
wipe_method_text WipeMethod.secure = "secure"
wipe_method_text WipeMethod.discard = "discard"
wipe_method_text WipeMethod.skip = "skip"

abbrev pub gpu_vendor_text : GpuVendor → String
gpu_vendor_text GpuVendor.amd = "amd"
gpu_vendor_text GpuVendor.intel = "intel"
gpu_vendor_text GpuVendor.nvidia = "nvidia"
gpu_vendor_text GpuVendor.none = "none"

abbrev pub gpu_driver_text : GpuDriver → String
gpu_driver_text GpuDriver.nouveau = "nouveau"
gpu_driver_text GpuDriver.nvidia_open = "nvidia-open"
gpu_driver_text GpuDriver.nvidia_dkms = "nvidia-dkms"
gpu_driver_text GpuDriver.vendor_default = ""

abbrev pub firewall_policy_text : FirewallPolicy → String
firewall_policy_text FirewallPolicy.allow = "allow"
firewall_policy_text FirewallPolicy.deny = "deny"
firewall_policy_text FirewallPolicy.reject = "reject"

-- `== WipeMethod.SKIP` and the like, one test for each member that the program compares with
abbrev pub is_skip : WipeMethod → Bool
is_skip WipeMethod.skip = true
is_skip _ = false

-- `in (WipeMethod.QUICK, WipeMethod.DISCARD)`
abbrev pub leaves_old_content : WipeMethod → Bool
leaves_old_content WipeMethod.quick = true
leaves_old_content WipeMethod.discard = true
leaves_old_content _ = false

abbrev pub is_nvidia : GpuVendor → Bool
is_nvidia GpuVendor.nvidia = true
is_nvidia _ = false

abbrev pub is_nouveau : GpuDriver → Bool
is_nouveau GpuDriver.nouveau = true
is_nouveau _ = false

unfoldable pub is_proprietary_nvidia : GpuVendor → GpuDriver → Bool
is_proprietary_nvidia vendor driver = is_nvidia vendor && not (is_nouveau driver)

abbrev pub cpu_vendor_text : CpuVendor → String
cpu_vendor_text CpuVendor.amd = "amd"
cpu_vendor_text CpuVendor.intel = "intel"
cpu_vendor_text CpuVendor.unknown = ""

abbrev pub desktop_text : Desktop → String
desktop_text Desktop.kde = "kde"
desktop_text Desktop.gnome = "gnome"
desktop_text Desktop.hyprland = "hyprland"

abbrev pub backup_category_text : BackupCategory → String
backup_category_text BackupCategory.dotfiles = "dotfiles"
backup_category_text BackupCategory.keepass = "keepass"
backup_category_text BackupCategory.browser = "browser"
backup_category_text BackupCategory.system = "system"
