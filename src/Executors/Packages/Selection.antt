-- ===== src/Executors/Packages/Selection.antt =====
-- executors/packages.py: which packages are installed.
use arch_installer.Prelude.{
  ◌≡◌, refl, ap, ◌∙◌, arith, String, ◌==◌, eq_iff, Bool, true, false, not, ◌&&◌, ◌||◌, ◌<>◌, any,
  map, List, [], ◌∷◌, ◌++◌, keep, member, without, distinct, if◌then◌else◌,
}
use arch_installer.Config.Models.Enums.{CpuVendor, GpuVendor, GpuDriver, Desktop}
use arch_installer.Config.Models.System.{PackagesConfig, GpuDriverPackages, packages_for}
use arch_installer.Config.Models.Boot.{BootConfig, KernelConfig, kernel_packages}
use arch_installer.Config.Models.{InstallerConfig}
use arch_installer.Executors.Packages.{
  other_microcode, unwanted_kernels, without_other_microcode, without_unselected_kernels,
  desktop_packages, gpu_packages, collect_packages, unselected_kernels, packages_of,
  nvidia_packages,
}

-- No package stands twice in the list.
abbrev pub IsDistinct : List String → Type 0
IsDistinct [] = Unit
IsDistinct (x ∷ xs) = (member x xs ≡ false) × IsDistinct xs

eq→path : (x y : String) → x == y ≡ true → x ≡ y
eq→path x y h = (eq_iff x y).0 h

member-append :
    (p : String) (xs ys : List String) → member p (xs ++ ys) ≡ member p xs || member p ys
member-append p [] ys = refl
member-append p (x ∷ xs) ys = ground (arith, member-append p xs ys)

member-keep :
    (p : String) (f : String → Bool) (xs : List String) → member p (keep f xs) ≡ member p xs && f p
member-keep p f [] = refl
member-keep p f (x ∷ xs) = ground (arith, member-keep p f xs, eq→path p x)

member-without :
    (p x : String) (xs : List String) → member p (without x xs) ≡ member p xs && not (p == x)
member-without p x [] = refl
member-without p x (y ∷ ys) =
    ground (arith, member-without p x ys, eq_iff p x, eq_iff p y, eq_iff y x)

member-distinct : (p : String) (xs : List String) → member p (distinct xs) ≡ member p xs
unfolding distinct
member-distinct p [] = refl
member-distinct p (x ∷ xs) = ground (arith, member-distinct p xs, member-without p x (distinct xs))

if-IsDistinct :
    (b : Bool) (xs ys : List String)
    → IsDistinct xs
    → IsDistinct ys
    → IsDistinct (if b then xs else ys)
if-IsDistinct true xs ys h k = h
if-IsDistinct false xs ys h k = k

without-IsDistinct : (x : String) (xs : List String) → IsDistinct xs → IsDistinct (without x xs)
without-IsDistinct x [] h = tt
without-IsDistinct x (y ∷ ys) h =
    if-IsDistinct (y == x) _ _ (without-IsDistinct x ys h.1)
      (member-without y x ys ∙ ap (λ b. b && not (y == x)) h.0, without-IsDistinct x ys h.1)

distinct-IsDistinct : (xs : List String) → IsDistinct (distinct xs)
unfolding distinct
distinct-IsDistinct [] = tt
distinct-IsDistinct (x ∷ xs) = (
  ground (arith, member-without x x (distinct xs), eq_iff x x),
  without-IsDistinct x (distinct xs) (distinct-IsDistinct xs),
)

-- the microcode of the vendor that the machine's is not
abbrev pub is_foreign_microcode : CpuVendor → String → Bool
is_foreign_microcode CpuVendor.amd p = p == "intel-ucode"
is_foreign_microcode CpuVendor.intel p = p == "amd-ucode"
is_foreign_microcode CpuVendor.unknown p = false

-- a kernel or its headers
abbrev pub belongs_to : String → KernelConfig → Bool
belongs_to p kernel = p == kernel.package_name || p == (kernel.package_name <> "-headers")

-- a kernel, or its headers, that is offered and is not among those that are installed
abbrev pub is_left_out : BootConfig → String → Bool
is_left_out boot p =
    any (λ kernel. belongs_to p kernel && not (member kernel.package_name (kernel_packages boot)))
      boot.kernels

abbrev pub is_wanted : InstallerConfig → String → Bool
is_wanted config p =
    ((member p config.packages.base || member p config.packages.cataloged)
      && not (is_foreign_microcode config.system.cpu_vendor p))
    && not (is_left_out config.boot p)

-- the packages of a selected desktop, and the display manager as soon as there is one
abbrev pub comes_with_desktops : PackagesConfig → String → Bool
comes_with_desktops packages p =
    any (λ desktop. member p (packages_for packages.desktops desktop)) packages.selected_desktops
    || (any (λ desktop. true) packages.selected_desktops && member p packages.display_manager)

abbrev pub comes_with_driver : GpuVendor → GpuDriver → GpuDriverPackages → String → Bool
comes_with_driver GpuVendor.amd driver drivers p = member p drivers.amd
comes_with_driver GpuVendor.intel driver drivers p = member p drivers.intel
comes_with_driver GpuVendor.nvidia GpuDriver.nouveau drivers p = member p drivers.nouveau
comes_with_driver GpuVendor.nvidia GpuDriver.nvidia_open drivers p = member p drivers.nvidia_open
comes_with_driver GpuVendor.nvidia GpuDriver.nvidia_dkms drivers p = member p drivers.nvidia_dkms
comes_with_driver GpuVendor.nvidia GpuDriver.vendor_default drivers p = member p drivers.nvidia_dkms
comes_with_driver GpuVendor.none driver drivers p = false

foreign-microcode :
    (vendor : CpuVendor) (p : String)
    → member p (other_microcode vendor) ≡ is_foreign_microcode vendor p
unfolding other_microcode
foreign-microcode CpuVendor.amd p = ground arith
foreign-microcode CpuVendor.intel p = ground arith
foreign-microcode CpuVendor.unknown p = refl

module _ (boot : BootConfig) (p : String) where
  abbrev left_out_of : List KernelConfig → List String
  left_out_of kernels =
      keep (λ k. not (member k (kernel_packages boot))) (map (λ k. k.package_name) kernels)

  left_out-kernels :
      (kernels : List KernelConfig)
      → member p (left_out_of kernels)
          || member p (map (λ k. k <> "-headers") (left_out_of kernels))
        ≡ any
            (λ kernel.
              belongs_to p kernel && not (member kernel.package_name (kernel_packages boot)))
            kernels
  left_out-kernels [] = refl
  left_out-kernels (kernel ∷ kernels) = ground (arith, left_out-kernels kernels)

  unwanted-left_out : member p (unwanted_kernels boot) ≡ is_left_out boot p
  unfolding unwanted_kernels unselected_kernels
  unwanted-left_out = member-append p (left_out_of boot.kernels) _ ∙ left_out-kernels boot.kernels

packages_of-desktops :
    (packages : PackagesConfig) (p : String) (desktops : List Desktop)
    → member p (packages_of packages desktops)
      ≡ any (λ desktop. member p (packages_for packages.desktops desktop)) desktops
unfolding packages_of
packages_of-desktops packages p [] = refl
packages_of-desktops packages p (desktop ∷ desktops) =
    member-append p (packages_for packages.desktops desktop) _
    ∙ ap (λ b. member p (packages_for packages.desktops desktop) || b)
        (packages_of-desktops packages p desktops)

selected-packages :
    (config : InstallerConfig) (p : String) (selected : List Desktop)
    → config.packages.selected_desktops ≡ selected
    → member p (desktop_packages config)
      ≡ any (λ desktop. member p (packages_for config.packages.desktops desktop)) selected
        || (any (λ desktop. true) selected && member p config.packages.display_manager)
unfolding desktop_packages
selected-packages config p [] e = rw e refl
selected-packages config p (desktop ∷ desktops) e = rw e (
    member-append p (packages_of config.packages (desktop ∷ desktops)) _
    ∙ ap (λ b. b || member p config.packages.display_manager)
        (packages_of-desktops config.packages p (desktop ∷ desktops)))

desktop-packages :
    (config : InstallerConfig) (p : String)
    → member p (desktop_packages config) ≡ comes_with_desktops config.packages p
desktop-packages config p = selected-packages config p _ refl

vendor-packages :
    (config : InstallerConfig) (p : String) (vendor : GpuVendor) (driver : GpuDriver)
    → config.gpu.vendor ≡ vendor
    → config.gpu.driver ≡ driver
    → member p (gpu_packages config) ≡ comes_with_driver vendor driver config.gpu.drivers p
unfolding gpu_packages nvidia_packages
vendor-packages config p GpuVendor.amd driver e f = rw e refl
vendor-packages config p GpuVendor.intel driver e f = rw e refl
vendor-packages config p GpuVendor.nvidia GpuDriver.vendor_default e f = rw e (rw f refl)
vendor-packages config p GpuVendor.nvidia GpuDriver.nouveau e f = rw e (rw f refl)
vendor-packages config p GpuVendor.nvidia GpuDriver.nvidia_open e f = rw e (rw f refl)
vendor-packages config p GpuVendor.nvidia GpuDriver.nvidia_dkms e f = rw e (rw f refl)
vendor-packages config p GpuVendor.none driver e f = rw e refl

driver-packages :
    (config : InstallerConfig) (p : String)
    → member p (gpu_packages config)
      ≡ comes_with_driver config.gpu.vendor config.gpu.driver config.gpu.drivers p
driver-packages config p = vendor-packages config p _ _ refl refl

-- The list of packages names none twice, and it names a package exactly if it is of the base or
-- cataloged ones, not the microcode of the other vendor and neither a kernel that is offered but not
-- installed nor the headers of one, or comes with a selected desktop, or is the display manager where
-- a desktop is selected, or comes with the graphics driver of the vendor.
pub collect_packages-selection :
    (config : InstallerConfig)
    → IsDistinct (collect_packages config)
      × ((p : String)
          → member p (collect_packages config)
            ≡ is_wanted config p
              || (comes_with_desktops config.packages p
                  || comes_with_driver config.gpu.vendor config.gpu.driver config.gpu.drivers p))
unfolding collect_packages without_other_microcode without_unselected_kernels
collect_packages-selection config = (
  distinct-IsDistinct _,
  λ p. simp (
    member-distinct, member-append, member-keep, foreign-microcode, unwanted-left_out,
    desktop-packages, driver-packages,
  ),
)
