-- ===== src/Executors/UsbBoot/Safeguards/Texts.antt =====
-- executors/usb_boot.py: the texts of the files that `UsbBootSafeguardsStepExecutor` writes.
use arch_installer.Prelude.{
  String, ◌<>◌, ◌==◌, join, split_lines, split_words, Bool, false, List, [], ◌∷◌, ◌++◌, map,
  if◌then◌else◌,
}

abbrev pub removable_efi_mount_options : String
removable_efi_mount_options =
    "umask=0077,noauto,nofail,x-systemd.automount,x-systemd.idle-timeout=60s,x-syste"
    <> "md.device-timeout=5s"

abbrev pub boot_file_targets : List String
boot_file_targets =
    "boot/*" ∷ "efi/*" ∷ "usr/lib/initcpio/*" ∷ "usr/lib/firmware/*" ∷ "usr/lib/modules/*/vmlinuz"
    ∷ "usr/lib/modules/*/extramodules/*" ∷ "usr/lib/modprobe.d/" ∷ "usr/src/*/dkms.conf"
    ∷ "usr/lib/systemd/systemd" ∷ "usr/lib/systemd/systemd-udevd" ∷ "usr/lib/**/efi/*.efi*"
    ∷ "usr/share/**/*.efi*" ∷ "usr/bin/cryptsetup" ∷ "usr/bin/lvm" ∷ "usr/bin/mdadm"
    ∷ "usr/bin/pdata_tools" ∷ "usr/lib/libcryptsetup.so" ∷ "usr/lib/libp11-kit.so"
    ∷ "usr/lib/libpcsclite.so" ∷ []

-- `line.split()[1:2] == ["/efi"]`
abbrev pub second_is_efi : List String → Bool
second_is_efi (device ∷ (mountpoint ∷ words)) = mountpoint == "/efi"
second_is_efi _ = false

unfoldable pub without_efi : List String → List String
without_efi [] = []
without_efi (line ∷ lines) =
    let rest = without_efi lines in if second_is_efi (split_words line) then rest else line ∷ rest

unfoldable pub efi_entry : String → String
efi_entry efi_partition_uuid =
    "PARTUUID=" <> efi_partition_uuid <> "\t/efi\tvfat\t" <> removable_efi_mount_options <> "\t0 2"

unfoldable pub removable_efi_fstab : String → String → String
removable_efi_fstab fstab efi_partition_uuid =
    join "\n" (without_efi (split_lines fstab) ++ (efi_entry efi_partition_uuid ∷ [])) <> "\n"

unfoldable pub usb_boot_settings : String → String
usb_boot_settings efi_partition_uuid =
    "# the USB boot drive this system starts from, written by the DALI installer\n"
    <> "EFI_PARTITION_UUID=" <> efi_partition_uuid <> "\n"

abbrev pub usb_boot_guard_script_content : String
usb_boot_guard_script_content =
    "#!/usr/bin/env bash\n"
    <> "# run by pacman before a transaction that rewrites boot files: they live on "
    <> "the USB boot\n"
    <> "# drive, and a kernel update without it would leave the drive's UKIs behind "
    <> "the modules\nset -uo pipefail\n\n. /etc/default/usb-boot-drive\n\n"
    <> "# listing /efi mounts the drive (automount) when it is plugged in\n"
    <> "ls /efi >/dev/null 2>&1\n"
    <> "mounted_uuid=$(findmnt -n -t vfat -o PARTUUID --mountpoint /efi 2>/dev/null)\n"
    <> "if [ \"$mounted_uuid\" != \"$EFI_PARTITION_UUID\" ]; then\n"
    <> "    echo \"The USB boot drive is not plugged in. This transaction rewrites "
    <> "boot files on\" >&2\n"
    <> "    echo \"its EFI partition (PARTUUID $EFI_PARTITION_UUID): plug it in and "
    <> "run it again.\" >&2\n    exit 1\nfi\n"

abbrev pub usb_boot_guard_hook : String
usb_boot_guard_hook =
    "# refuses transactions that rewrite boot files while the USB boot drive is "
    <> "unplugged\n"
    <> "# sorts before every other hook, so nothing (snap-pac included) runs before "
    <> "the check\n\n[Trigger]\nType = Path\nOperation = Install\nOperation = Upgrade\n"
    <> "Operation = Remove\n"
    <> join "\n" (map (λ target. "Target = " <> target) boot_file_targets)
    <> "\n\n[Trigger]\nType = Package\nOperation = Install\nOperation = Upgrade\n"
    <> "Target = mkinitcpio\n\n[Action]\n"
    <> "Description = Checking that the USB boot drive is plugged in...\n"
    <> "When = PreTransaction\nExec = /usr/local/bin/check-usb-boot-drive\nAbortOnFail\n"

unfoldable pub snapshot_catch_up_rule : String → String
snapshot_catch_up_rule efi_partition_uuid =
    "# builds the snapshot UKIs skipped while the USB boot drive was unplugged\n"
    <> "ACTION==\"add\", SUBSYSTEM==\"block\", ENV{ID_PART_ENTRY_UUID}==\"" <> efi_partition_uuid
    <> "\", TAG+=\"systemd\", ENV{SYSTEMD_WANTS}+=\"snapshot-ukis-catch-up.service\"\n"

abbrev pub snapshot_catch_up_service_content : String
snapshot_catch_up_service_content =
    "[Unit]\n"
    <> "Description=Build the snapshot UKIs skipped while the USB boot drive was unplugged\n"
    <> "ConditionPathExists=/var/lib/manage-snapshot-ukis/refresh-pending\n\n[Service]\n"
    <> "Type=oneshot\nExecStart=/usr/local/bin/manage-snapshot-ukis refresh\n"
