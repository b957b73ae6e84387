-- ===== src/Executors/UsbBackup/Unmounted.antt =====
-- executors/usb_backup.py: the backup partition does not stay mounted.
use arch_installer.Prelude.{
  String, ◌==◌, Bool, true, false, Option, none, some, List, refl, if◌then◌else◌,
}
use arch_installer.Core.Commands.{Command, disk}
use arch_installer.Core.Commands.Disks.{mount_plain, unmount}
use arch_installer.Core.Exec.{Machine, Event, Reply}
use arch_installer.Core.Exec.Emits.{replied_zero}
use arch_installer.Core.Exec.Leads.{
  Leads, keeps_rules, Leads-bind, Leads-run_with, Leads-finally, Leads-any, Leads-raise, Keeps-pure,
}
use arch_installer.Core.Exec.Held.{IsReleased, Any, or_error, other_command, taking_command}
use arch_installer.Config.Value.{Value}
use arch_installer.Config.Models.{InstallerConfig}
use arch_installer.Executors.Base.{is_mountpoint, path_exists}
use arch_installer.Executors.UsbBackup.{
  backup_mount, back_up, require_partition, mount_partition, execute,
}

-- whether a command mounts something for the backup, with the given reply, or unmounts it
abbrev pub mount_event : Reply → Command → Option Bool
mount_event r (disk (mount_plain d p)) =
    if p == backup_mount then (if replied_zero r then some true else none) else none
mount_event r (disk (unmount p)) = if p == backup_mount then some false else none
mount_event r _ = none

abbrev pub IsUnmounted : Machine → List Event → Type 0
IsUnmounted = IsReleased mount_event

module _ {w : Machine} where
  require_partition-IsUnmounted :
      (safe_dump : Value → String) (p : String)
      → Leads w (IsUnmounted w) (require_partition safe_dump p) (λ _. IsUnmounted w) (IsUnmounted w)
  unfolding require_partition path_exists
  require_partition-IsUnmounted safe_dump p =
      search (keeps_rules, other_command mount_event, Leads-raise) depth 40

  mount_partition-IsUnmounted :
      (safe_dump : Value → String) (p : String)
      → Leads w (IsUnmounted w) (mount_partition safe_dump p) (λ _. Any) (IsUnmounted w)
  unfolding mount_partition is_mountpoint
  mount_partition-IsUnmounted safe_dump p =
      Leads-bind (λ _. IsUnmounted w) _ _ (search (keeps_rules, other_command mount_event) depth 20)
        λ _.
          Leads-bind (λ _. IsUnmounted w) _ _
            (search (keeps_rules, other_command mount_event) depth 20)
            λ mounted. or_error mounted _ (λ f.
              Leads-bind (λ _. Any) _ _ (taking_command mount_event _ (λ r z. rw z refl))
                (λ _. Keeps-pure tt))

-- On every machine the backup never ends, whether it returns or raises, with its partition mounted and
-- no attempt made to unmount it since, if it starts so.
pub execute-IsUnmounted :
    (w : Machine) (safe_dump : Value → String) (config : InstallerConfig)
    → Leads w (IsUnmounted w) (execute safe_dump config) (λ _. IsUnmounted w) (IsUnmounted w)
unfolding execute
execute-IsUnmounted w safe_dump config =
    Leads-bind (λ _. IsUnmounted w) _ _
      (require_partition-IsUnmounted safe_dump config.sync.backup_partition)
      λ _.
        Leads-bind (λ _. Any) _ _
          (mount_partition-IsUnmounted safe_dump config.sync.backup_partition)
          λ _. Leads-finally Any _ _ (Leads-any (back_up safe_dump config)) (
            Leads-bind (λ _. IsUnmounted w) _ _
              (Leads-run_with false _ (λ tr p. refl) (λ tr p. refl)) λ _. Keeps-pure tt)
