-- ===== src/Executors/Snapper/Texts.antt =====
-- executors/snapper.py: the texts of the files that the snapshot steps write.
use arch_installer.Prelude.{
  String, ◌<>◌, join, Bool, List, [], ◌∷◌, ◌++◌, map, ℤ, show_int, if◌then◌else◌,
}
use arch_installer.Config.Models.Features.{SnapperVolumeConfig}

abbrev microcode_packages : List String
microcode_packages = "amd-ucode" ∷ "intel-ucode" ∷ []

unfoldable pub yes_no : Bool → String
yes_no enabled = if enabled then "yes" else "no"

unfoldable pub snapper_volume_config : SnapperVolumeConfig → List String → String
unfolding yes_no
snapper_volume_config volume allow_groups =
    "# snapper config for "
    <> volume.subvolume
    <> "\n# created by arch_installer (D-Bus not available in chroot)\n\nSUBVOLUME=\""
    <> volume.subvolume
    <> "\"\nFSTYPE=\"btrfs\"\nALLOW_USERS=\"\"\nALLOW_GROUPS=\""
    <> join "," allow_groups
    <> "\"\nSYNC_ACL=\"yes\"\nBACKGROUND_COMPARISON=\"yes\"\n\nNUMBER_CLEANUP=\""
    <> yes_no volume.cleanup
    <> "\"\nNUMBER_MIN_AGE=\"1800\"\nNUMBER_LIMIT=\""
    <> show_int volume.number_limit
    <> "\"\nNUMBER_LIMIT_IMPORTANT=\""
    <> show_int volume.number_limit_important
    <> "\"\n\nTIMELINE_CREATE=\""
    <> yes_no volume.timeline
    <> "\"\nTIMELINE_CLEANUP=\""
    <> yes_no volume.cleanup
    <> "\"\nTIMELINE_MIN_AGE=\"1800\"\nTIMELINE_LIMIT_HOURLY=\""
    <> show_int volume.retention.hourly
    <> "\"\nTIMELINE_LIMIT_DAILY=\""
    <> show_int volume.retention.daily
    <> "\"\nTIMELINE_LIMIT_WEEKLY=\""
    <> show_int volume.retention.weekly
    <> "\"\nTIMELINE_LIMIT_MONTHLY=\""
    <> show_int volume.retention.monthly
    <> "\"\nTIMELINE_LIMIT_YEARLY=\""
    <> show_int volume.retention.yearly
    <> "\"\n\nEMPTY_PRE_POST_CLEANUP=\""
    <> yes_no volume.cleanup
    <> "\"\nEMPTY_PRE_POST_MIN_AGE=\"1800\"\n"

abbrev pub snap_pac_root_config : String
snap_pac_root_config = "[root]\nsnapshot = yes\ncleanup = timeline\n"

unfoldable pub snapshot_manager_settings : ℤ → String → String
snapshot_manager_settings snapshot_count preferred_kernel =
    "# read by manage-snapshot-ukis, generated by arch_installer from config.yaml\n"
    <> "SNAPSHOT_COUNT="
    <> show_int snapshot_count
    <> "\nPREFERRED_KERNEL="
    <> preferred_kernel
    <> "\n"

abbrev pub snapshot_boot_entries_service : String
snapshot_boot_entries_service =
    "[Unit]\nDescription=Refresh systemd-boot entries for BTRFS snapshots\n"
    <> "After=snapper-cleanup.service snapper-timeline.service\n\n[Service]\n"
    <> "Type=oneshot\nExecStart=/usr/local/bin/manage-snapshot-ukis refresh-settled\n"

abbrev pub snapshot_boot_entries_path : String
snapshot_boot_entries_path =
    "[Unit]\nDescription=Watch for snapper snapshot changes\n\n[Path]\n"
    <> "PathChanged=/.snapshots\nUnit=snapper-boot-entries.service\n\n[Install]\n"
    <> "WantedBy=multi-user.target\n"

unfoldable pub package_targets : List String → String
package_targets kernel_packages =
    join "\n" (map (λ name. "Target = " <> name) (kernel_packages ++ microcode_packages))

unfoldable pub snapshot_refresh_pacman_hook : List String → String
unfolding package_targets
snapshot_refresh_pacman_hook kernel_packages =
    "# refreshes bootable snapshot UKIs once a kernel or initramfs changed\n"
    <> "# runs after 90-mkinitcpio-install.hook, which rebuilds the system UKIs\n\n"
    <> "[Trigger]\nType = Path\nOperation = Install\nOperation = Upgrade\n"
    <> "Target = usr/lib/modules/*/vmlinuz\nTarget = usr/lib/initcpio/*\n\n[Trigger]\n"
    <> "Type = Package\nOperation = Install\nOperation = Upgrade\n"
    <> package_targets kernel_packages
    <> "\n\n[Action]\nDescription = Refreshing snapshot boot UKIs...\n"
    <> "When = PostTransaction\nExec = /usr/local/bin/refresh-snapshot-ukis\n"
    <> "NeedsTargets\n"

abbrev pub snapshot_refresh_hook_script_content : String
snapshot_refresh_hook_script_content =
    "#!/usr/bin/env bash\n"
    <> "# called by the pacman hook after kernel updates; never fails the transaction\n"
    <> "set -uo pipefail\n\nLOG_FILE=\"/var/log/snapshot-uki-refresh.log\"\n\nlog() {\n"
    <> "    echo \"[$(date '+%Y-%m-%d %H:%M:%S')] $*\" | tee -a \"$LOG_FILE\"\n}\n\n"
    <> "if [ ! -x \"/usr/local/bin/manage-snapshot-ukis\" ]; then\n"
    <> "    log \"Warning: /usr/local/bin/manage-snapshot-ukis not found, skipping "
    <> "refresh\"\n    exit 0\nfi\n\n"
    <> "if [ ! -d \"/.snapshots\" ] || [ -z \"$(ls -A /.snapshots 2>/dev/null)\" ]; then\n"
    <> "    log \"No snapshots found in /.snapshots, skipping UKI refresh\"\n    exit 0\n"
    <> "fi\n\nlog \"Refreshing snapshot UKIs after kernel update...\"\n"
    <> "if \"/usr/local/bin/manage-snapshot-ukis\" refresh >> \"$LOG_FILE\" 2>&1; then\n"
    <> "    log \"Snapshot UKIs refreshed successfully\"\nelse\n"
    <> "    log \"Warning: Failed to refresh some snapshot UKIs\"\nfi\nexit 0\n"
