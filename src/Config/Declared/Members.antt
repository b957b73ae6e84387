-- ===== src/Config/Declared/Members.antt =====
-- models.py: the enumerations as the builder sees them.
use arch_installer.Prelude.{[], ◌∷◌}
use arch_installer.Config.Schema.{FieldType, enum_type}

abbrev pub wipe_method_type : FieldType
wipe_method_type = enum_type ("quick" ∷ "secure" ∷ "discard" ∷ "skip" ∷ [])

abbrev pub cpu_vendor_type : FieldType
cpu_vendor_type = enum_type ("amd" ∷ "intel" ∷ "" ∷ [])

abbrev pub gpu_vendor_type : FieldType
gpu_vendor_type = enum_type ("amd" ∷ "intel" ∷ "nvidia" ∷ "none" ∷ [])

abbrev pub gpu_driver_type : FieldType
gpu_driver_type = enum_type ("nouveau" ∷ "nvidia-open" ∷ "nvidia-dkms" ∷ "" ∷ [])

abbrev pub firewall_policy_type : FieldType
firewall_policy_type = enum_type ("allow" ∷ "deny" ∷ "reject" ∷ [])

abbrev pub desktop_type : FieldType
desktop_type = enum_type ("kde" ∷ "gnome" ∷ "hyprland" ∷ [])

abbrev pub backup_category_type : FieldType
backup_category_type = enum_type ("dotfiles" ∷ "keepass" ∷ "browser" ∷ "system" ∷ [])
