-- ===== src/Executors/Packages.antt =====
-- executors/packages.py: `PackagesStepExecutor`.
pub mod Selection
use arch_installer.Prelude.{
  String, ◌<>◌, ◌==◌, Bool, true, false, not, List, [], ◌∷◌, ◌++◌, map, keep, member, distinct,
  if◌then◌else◌,
}
use arch_installer.Core.Commands.{chroot, files, probe}
use arch_installer.Core.Commands.Probes.{Probe}
use arch_installer.Core.Commands.Chroot
use arch_installer.Core.Commands.Files
use arch_installer.Core.Exec.{Exec, Done, pure, do_run, do_attempt, succeeds, for_each, ◌>>=◌, ◌>>◌}
use arch_installer.Config.Models.Enums.{CpuVendor, GpuVendor, GpuDriver, Desktop}
use arch_installer.Config.Models.System.{PackagesConfig, GpuConfig, packages_for}
use arch_installer.Config.Models.Boot.{BootConfig, kernel_packages}
use arch_installer.Config.Models.{InstallerConfig}
use arch_installer.Executors.Base.{file_exists, write_file}

-- the values of `MICROCODE_PACKAGES` whose vendor is another; nothing where it is unknown
unfoldable pub other_microcode : CpuVendor → List String
other_microcode CpuVendor.amd = "intel-ucode" ∷ []
other_microcode CpuVendor.intel = "amd-ucode" ∷ []
other_microcode CpuVendor.unknown = []

unfoldable pub without_other_microcode : InstallerConfig → List String → List String
without_other_microcode config packages =
    keep (λ p. not (member p (other_microcode config.system.cpu_vendor))) packages

unfoldable pub unselected_kernels : BootConfig → List String
unselected_kernels boot =
    keep (λ k. not (member k (kernel_packages boot))) (map (λ k. k.package_name) boot.kernels)

unfoldable pub unwanted_kernels : BootConfig → List String
unfolding unselected_kernels
unwanted_kernels boot =
    unselected_kernels boot ++ map (λ k. k <> "-headers") (unselected_kernels boot)

unfoldable pub without_unselected_kernels : InstallerConfig → List String → List String
without_unselected_kernels config packages =
    keep (λ p. not (member p (unwanted_kernels config.boot))) packages

unfoldable pub packages_of : PackagesConfig → List Desktop → List String
packages_of packages [] = []
packages_of packages (desktop ∷ desktops) =
    packages_for packages.desktops desktop ++ packages_of packages desktops

unfoldable pub desktop_packages : InstallerConfig → List String
unfolding packages_of
desktop_packages config = elim config.packages.selected_desktops [
  | [] ↦ []
  | desktop ∷ desktops ↦
      packages_of config.packages (desktop ∷ desktops) ++ config.packages.display_manager
]

unfoldable pub nvidia_packages : GpuConfig → List String
nvidia_packages gpu = elim gpu.driver [
  | GpuDriver.nouveau ↦ gpu.drivers.nouveau
  | GpuDriver.nvidia_open ↦ gpu.drivers.nvidia_open
  | _ ↦ gpu.drivers.nvidia_dkms
]

unfoldable pub gpu_packages : InstallerConfig → List String
gpu_packages config = elim config.gpu.vendor [
  | GpuVendor.amd ↦ config.gpu.drivers.amd
  | GpuVendor.intel ↦ config.gpu.drivers.intel
  | GpuVendor.nvidia ↦ nvidia_packages config.gpu
  | GpuVendor.none ↦ []
]

unfoldable pub collect_packages : InstallerConfig → List String
collect_packages config =
    let packages = config.packages.base ++ config.packages.cataloged in
    let packages = without_other_microcode config packages in
    let packages = without_unselected_kernels config packages in
    distinct (packages ++ (desktop_packages config ++ gpu_packages config))

unfoldable pub create_vconsole_config : InstallerConfig → Exec Done
create_vconsole_config config = do
  do_run (files (Files.make_directory "/mnt/etc"))
  exists ← file_exists "/mnt/etc/vconsole.conf"
  if exists
      then pure tt
      else write_file "/mnt/etc/vconsole.conf" ("KEYMAP=" <> config.system.locale.keymap <> "\n")

unfoldable pub clear_pacman_locks : Exec Done
clear_pacman_locks = do
  do_attempt (files (Files.remove "/var/lib/pacman/db.lck"))
  do_attempt (files (Files.make_directory "/mnt/var/lib/pacman"))
  do_attempt (files (Files.remove "/mnt/var/lib/pacman/db.lck"))

unfoldable pub install : List String → Exec Done
install packages = do
  bootstrapped ← file_exists "/mnt/etc/os-release"
  if bootstrapped
      then do_attempt (chroot (Chroot.upgrade_packages packages))
      else do_run (files (Files.pacstrap packages))

unfoldable pub copy_pacman_config : Exec Done
copy_pacman_config = do
  exists ← file_exists "/mnt/etc/pacman.conf"
  if exists then pure tt else do_run (files (Files.copy "/etc/pacman.conf" "/mnt/etc/pacman.conf"))

unfoldable pub generate_fstab : Exec Done
generate_fstab = do
  has_entries ← succeeds (probe (Probe.fstab_entries "/mnt/etc/fstab"))
  if has_entries then pure tt else do_run (files (Files.append_fstab "/mnt/etc/fstab"))

unfoldable pub enable_display_manager : String → Exec Done
enable_display_manager manager = do
  installed ← succeeds (chroot (Chroot.query_package manager))
  if installed then do_attempt (chroot (Chroot.enable_unit (manager <> ".service"))) else pure tt

-- only where a desktop is selected
unfoldable pub enable_display_managers : List Desktop → List String → Exec Done
enable_display_managers [] managers = pure tt
enable_display_managers (desktop ∷ desktops) managers = for_each managers enable_display_manager

unfoldable pub enable_services : PackagesConfig → Exec Done
enable_services packages = do
  do_run (chroot (Chroot.enable_unit "NetworkManager.service"))
  has_ssh ← succeeds (chroot (Chroot.query_package "openssh"))
  if has_ssh then do_run (chroot (Chroot.enable_unit "sshd.service")) else pure tt
  enable_display_managers packages.selected_desktops packages.display_manager

unfoldable pub execute : InstallerConfig → Exec Done
execute config = do
  create_vconsole_config config
  clear_pacman_locks
  install (collect_packages config)
  copy_pacman_config
  generate_fstab
  enable_services config.packages
