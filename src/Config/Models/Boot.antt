-- ===== src/Config/Models/Boot.antt =====
-- models.py: the boot section.
use arch_installer.Prelude.{String, Bool, List, [], ◌∷◌, map, ℤ}

pub record KernelConfig : Type 0 where
  pub name : String
  pub package_name : String

pub record UkiVariantConfig : Type 0 where
  pub suffix : String
  pub params : String

pub record CmdlineHardeningConfig : Type 0 where
  pub lockdown : String
  pub iommu : String
  pub intel_iommu : String
  pub amd_iommu : String
  pub pti : String
  pub spectre_v2 : String
  pub spec_store_bypass_disable : String
  pub l1tf : String
  pub mds : String
  pub srbds : String
  pub tsx_async_abort : String
  pub init_on_alloc : ℤ
  pub init_on_free : ℤ

pub record CmdlineConfig : Type 0 where
  pub rootflags : String
  pub rootfstype : String
  pub read_write : Bool
  pub quiet : Bool
  pub hardening : CmdlineHardeningConfig

pub record LoaderConfig : Type 0 where
  pub timeout : ℤ
  pub console_mode : String
  pub editor : Bool

pub record SecureBootConfig : Type 0 where
  pub enroll_keys : Bool
  pub include_microsoft_keys : Bool

pub record BootConfig : Type 0 where
  pub kernels : List KernelConfig
  pub selected_kernels : List String
  pub variants : List UkiVariantConfig
  pub cmdline : CmdlineConfig
  pub loader : LoaderConfig
  pub hooks : List String
  pub secure_boot : SecureBootConfig
  pub enable_snapshot_boot : Bool

selected_or_all : List String → List KernelConfig → List String
selected_or_all [] kernels = map (λ k. k.package_name) kernels
selected_or_all (kernel ∷ rest) kernels = kernel ∷ rest

unfoldable pub kernel_packages : BootConfig → List String
unfolding selected_or_all
kernel_packages b = selected_or_all b.selected_kernels b.kernels
