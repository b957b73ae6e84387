-- ===== src/Executors/Boot/Images.antt =====
-- executors/boot.py: `KernelImagesStepExecutor`. `repr` stands for Python's, of a text.
use arch_installer.Prelude.{
  String, ◌<>◌, ◌==◌, not, ◌&&◌, Option, none, some, List, [], ◌∷◌, ◌++◌, map, contains, is_digits,
  starts_with, replace, strip, split_on, split_words, join, if◌then◌else◌,
}
use arch_installer.Errors.{Error, runtime_error}
use arch_installer.Core.Commands.{probe, files, chroot}
use arch_installer.Core.Commands.Probes.{Probe}
use arch_installer.Core.Commands.Chroot.{build_images}
use arch_installer.Core.Commands.Files.{make_directory}
use arch_installer.Core.Exec.{Exec, Done, pure, raise, attempt, do_run, for_each, ◌>>=◌, ◌>>◌}
use arch_installer.Config.Models.System.{uses_proprietary_nvidia_driver}
use arch_installer.Config.Models.Storage.{usb_luks_header_partition}
use arch_installer.Config.Models.Boot.{UkiVariantConfig, kernel_packages}
use arch_installer.Config.Models.{InstallerConfig, encrypted_device, luks_header_device}
use arch_installer.Executors.Base.{
  file_exists, write_file, detect_luks_uuid, partition_uuid, stable_disk_path,
}
use arch_installer.Executors.Gpu.{nvidia_initramfs_modules}
use arch_installer.Executors.Boot.Texts.{
  uki_directory, usb_storage_initramfs_modules, DetachedLuksHeader, mkinitcpio_conf, cmdline_file,
  kernel_preset, kernel_cmdline, uki_variants,
}
use arch_installer.Executors.Boot.SecureBoot.{prepare_secure_boot, sign_ukis}

unfoldable pub initramfs_modules : InstallerConfig → List String
initramfs_modules config =
    (if uses_proprietary_nvidia_driver config.gpu then nvidia_initramfs_modules else [])
    ++ (if config.usb_boot.enabled then usb_storage_initramfs_modules else [])

unfoldable pub require_path : String → String → Exec String
require_path device path =
    if path == ""
    then raise (runtime_error (device <> " has no /dev/disk/by-id name"))
    else pure path

unfoldable pub find_header : InstallerConfig → Exec DetachedLuksHeader
find_header config = do
  found ← stable_disk_path (encrypted_device config)
  path ← require_path (encrypted_device config) found
  uuid ← partition_uuid (usb_luks_header_partition config.usb_boot)
  pure (record { encrypted_device_path = path; header_partition_uuid = uuid })

unfoldable pub detached_header : InstallerConfig → Exec (Option DetachedLuksHeader)
detached_header config =
    if config.usb_boot.enabled
    then (find_header config >>= λ header. pure (some header))
    else pure none

-- the fourth word of an extent line, without its dots and colons
unfoldable pub physical_offset : List String → Option String
physical_offset (a ∷ (b ∷ (c ∷ (offset ∷ rest)))) =
    let physical = replace ":" "" (replace "." "" offset) in
    if is_digits physical then some physical else none
physical_offset _ = none

unfoldable pub extent_offset : String → Option String
extent_offset line =
    if contains ".." line && not (starts_with (strip line) "ext:")
    then physical_offset (split_words line)
    else none

unfoldable pub first_offset : List String → Option String
first_offset [] = none
first_offset (line ∷ lines) =
    let rest = first_offset lines in elim (extent_offset line) [ none ↦ rest | some o ↦ some o ]

unfoldable pub filefrag_offset : String → Exec (Option String)
filefrag_offset swap_path = do
  filefrag ← attempt (probe (Probe.filefrag swap_path))
  pure (first_offset (split_on 10 filefrag.stdout))

unfoldable pub swapfile_resume_offset : InstallerConfig → Exec (Option String)
swapfile_resume_offset config =
    if config.storage.swap.enabled && config.storage.swap.hibernation
    then (do
      let swap_path = "/mnt" <> config.storage.swap.path
      mapped ← attempt (probe (Probe.map_swapfile swap_path))
      let offset = strip mapped.stdout
      if offset == "" then filefrag_offset swap_path else pure (some offset))
    else pure none

unfoldable pub require_luks_uuid : InstallerConfig → Exec String
require_luks_uuid config = do
  luks_uuid ← detect_luks_uuid (luks_header_device config)
  if luks_uuid == ""
      then raise (runtime_error ("No LUKS header on " <> luks_header_device config))
      else pure luks_uuid

unfoldable pub installed_kernels : List String → Exec (List String)
installed_kernels [] = pure []
installed_kernels (kernel ∷ kernels) = do
  exists ← file_exists ("/mnt/boot/vmlinuz-" <> kernel)
  rest ← installed_kernels kernels
  pure (if exists then kernel ∷ rest else rest)

unfoldable pub write_cmdline : String → String → UkiVariantConfig → Exec Done
write_cmdline cmdline kernel variant =
    write_file ("/mnt" <> cmdline_file kernel variant)
      (strip (cmdline <> " " <> variant.params) <> "\n")

unfoldable pub write_kernel_files : String → List UkiVariantConfig → String → Exec Done
write_kernel_files cmdline variants kernel = do
  for_each variants (write_cmdline cmdline kernel)
  write_file ("/mnt/etc/mkinitcpio.d/" <> kernel <> ".preset") (kernel_preset kernel variants)

-- a tuple in an f-string
unfoldable pub show_tuple : (String → String) → List String → String
show_tuple repr [] = "()"
show_tuple repr (x ∷ []) = "(" <> repr x <> ",)"
show_tuple repr (x ∷ (y ∷ xs)) = "(" <> join ", " (map repr (x ∷ (y ∷ xs))) <> ")"

unfoldable pub kernels_or_raise : Error → List String → Exec (List String)
kernels_or_raise e [] = raise e
kernels_or_raise e (kernel ∷ kernels) = pure (kernel ∷ kernels)

unfoldable pub require_kernels : (String → String) → InstallerConfig → Exec (List String)
require_kernels repr config = do
  kernels ← installed_kernels (kernel_packages config.boot)
  kernels_or_raise
      (runtime_error (
        "None of the kernels " <> show_tuple repr (kernel_packages config.boot) <> " is installed"))
      kernels

unfoldable pub build_kernel_images :
    InstallerConfig → List String → List UkiVariantConfig → String → Exec Done
build_kernel_images config kernels variants cmdline = do
  do_run (files (make_directory "/mnt/etc/kernel"))
  for_each kernels (write_kernel_files cmdline variants)
  write_file "/mnt/etc/kernel/cmdline" (cmdline <> "\n")
  prepare_secure_boot config.boot.secure_boot
  do_run (chroot build_images)
  sign_ukis kernels variants

unfoldable pub execute : (String → String) → InstallerConfig → Exec Done
execute repr config = do
  write_file "/mnt/etc/mkinitcpio.conf"
      (mkinitcpio_conf config.boot.hooks (initramfs_modules config))
  do_run (files (make_directory ("/mnt" <> uki_directory)))
  luks_uuid ← require_luks_uuid config
  kernels ← require_kernels repr config
  header ← detached_header config
  offset ← swapfile_resume_offset config
  build_kernel_images config kernels (uki_variants config)
      (kernel_cmdline config luks_uuid header offset)
