-- ===== src/Executors/Gpu.antt =====
-- executors/gpu.py: `GpuDriverStepExecutor`.
use arch_installer.Prelude.{String, ◌<>◌, List, [], ◌∷◌, ◌++◌, map, join}
use arch_installer.Core.Commands.{files}
use arch_installer.Core.Commands.Files
use arch_installer.Core.Exec.{Exec, Done, do_run, ◌>>◌}
use arch_installer.Config.Models.Boot.{kernel_packages}
use arch_installer.Config.Models.{InstallerConfig}
use arch_installer.Executors.Base.{write_file}

abbrev pub nvidia_modprobe_drm_options : String
nvidia_modprobe_drm_options = "options nvidia_drm modeset=1 fbdev=1"

abbrev pub nvidia_initramfs_modules : List String
nvidia_initramfs_modules = "nvidia" ∷ "nvidia_modeset" ∷ "nvidia_uvm" ∷ "nvidia_drm" ∷ []

abbrev pub nvidia_driver_packages : List String
nvidia_driver_packages = "nvidia" ∷ "nvidia-dkms" ∷ "nvidia-open" ∷ []

unfoldable pub initramfs_rebuild_hook : List String → String
initramfs_rebuild_hook packages =
    let targets = join "\n" (map (λ p. "Target=" <> p) (nvidia_driver_packages ++ packages)) in
    "[Trigger]\nOperation=Install\nOperation=Upgrade\nOperation=Remove\nType=Package\n" <> targets
    <> "\n\n[Action]\nDescription=Rebuilding initramfs after NVIDIA driver update...\n"
    <> "Depends=mkinitcpio\nWhen=PostTransaction\nNeedsTargets\n"
    <> "Exec=/bin/sh -c 'while read -r trg; do case $trg in linux*) exit 0; esac; done; "
    <> "/usr/bin/mkinitcpio -P'\n"

unfoldable pub execute : InstallerConfig → Exec Done
execute config = do
  do_run (files (Files.make_directory "/mnt/etc/modprobe.d"))
  write_file "/mnt/etc/modprobe.d/nvidia.conf" (nvidia_modprobe_drm_options <> "\n")
  do_run (files (Files.make_directory "/mnt/etc/pacman.d/hooks"))
  write_file "/mnt/etc/pacman.d/hooks/nvidia.hook"
      (initramfs_rebuild_hook (kernel_packages config.boot))
