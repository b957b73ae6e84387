-- ===== src/Executors/Snapper/Notifications.antt =====
-- executors/snapper.py: `SnapshotNotificationsStepExecutor`, with the texts of its files.
use arch_installer.Prelude.{String, ◌<>◌}
use arch_installer.Core.Commands.{files, chroot}
use arch_installer.Core.Commands.Files
use arch_installer.Core.Commands.Chroot
use arch_installer.Core.Exec.{Exec, Done, do_run, ◌>>◌}
use arch_installer.Config.Models.{InstallerConfig}
use arch_installer.Executors.Base.{write_file}

abbrev pub snapper_notify_service : String
snapper_notify_service =
    "[Unit]\nDescription=Notify on snapper snapshot creation\n"
    <> "After=snapper-timeline.timer snap-pac.service\n\n[Service]\nType=oneshot\n"
    <> "ExecStart=/usr/local/bin/snapper-notify\n"

abbrev pub snapper_notify_path : String
snapper_notify_path =
    "[Unit]\nDescription=Watch for new snapshots and notify\n\n[Path]\n"
    <> "PathChanged=/.snapshots\nUnit=snapper-notify.service\n\n[Install]\n"
    <> "WantedBy=multi-user.target\n"

abbrev pub snapper_notify_script : String
snapper_notify_script =
    "#!/bin/bash\n# Desktop notification for snapper snapshot creation\n"
    <> "# Requires: libnotify (notify-send)\n\nset -euo pipefail\n\n"
    <> "SNAPSHOT_DIR=\"/.snapshots\"\nLAST_NOTIFIED_FILE=\"/tmp/snapper-last-notified\"\n"
    <> "\nlatest_snapshot=$(ls -1t \"$SNAPSHOT_DIR\" 2>/dev/null | head -n1)\n"
    <> "[[ -z \"$latest_snapshot\" ]] && exit 0\n\n# avoid duplicate notifications\n"
    <> "if [[ -f \"$LAST_NOTIFIED_FILE\" ]]; then\n"
    <> "    last_notified=$(cat \"$LAST_NOTIFIED_FILE\")\n"
    <> "    [[ \"$latest_snapshot\" == \"$last_notified\" ]] && exit 0\nfi\n\n"
    <> "# get snapshot info\ninfo_file=\"$SNAPSHOT_DIR/$latest_snapshot/info.xml\"\n"
    <> "if [[ -f \"$info_file\" ]]; then\n"
    <> "    description=$(grep -oP '(?<=<description>).*(?=</description>)' "
    <> "\"$info_file\" 2>/dev/null || echo \"\")\n"
    <> "    snap_type=$(grep -oP '(?<=<type>).*(?=</type>)' \"$info_file\" 2>/dev/null "
    <> "|| echo \"single\")\nelse\n    description=\"\"\n    snap_type=\"single\"\nfi\n\n"
    <> "# send notification to logged-in user\n"
    <> "for uid in $(loginctl list-users --no-legend | awk '{print $1}'); do\n"
    <> "    user=$(id -nu \"$uid\" 2>/dev/null || continue)\n    export DISPLAY=\":0\"\n"
    <> "    export DBUS_SESSION_BUS_ADDRESS=\"unix:path=/run/user/$uid/bus\"\n\n"
    <> "    title=\"Snapshot #$latest_snapshot created\"\n"
    <> "    body=\"${description:-$snap_type snapshot}\"\n\n"
    <> "    sudo -u \"$user\" notify-send -i drive-harddisk -a \"Snapper\" \"$title\" "
    <> "\"$body\" 2>/dev/null || true\ndone\n\n"
    <> "echo \"$latest_snapshot\" > \"$LAST_NOTIFIED_FILE\"\n"

unfoldable pub execute : InstallerConfig → Exec Done
execute config = do
  do_run (files (Files.make_directory "/mnt/usr/local/bin"))
  write_file "/mnt/usr/local/bin/snapper-notify" snapper_notify_script
  do_run (files (Files.set_mode "+x" "/mnt/usr/local/bin/snapper-notify"))
  write_file "/mnt/etc/systemd/system/snapper-notify.service" snapper_notify_service
  write_file "/mnt/etc/systemd/system/snapper-notify.path" snapper_notify_path
  do_run (chroot (Chroot.enable_unit "snapper-notify.path"))
