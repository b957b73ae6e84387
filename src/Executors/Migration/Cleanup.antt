-- ===== src/Executors/Migration/Cleanup.antt =====
-- executors/migration.py: the volume of the old system does not stay open.
use arch_installer.Prelude.{
  ◌≡◌, refl, sym, String, ◌==◌, Bool, true, false, Option, none, some, List, [], ◌∷◌, if◌then◌else◌,
}
use arch_installer.Core.Commands.{Command, disk, files}
use arch_installer.Core.Commands.Disks.{luks_open, luks_close}
use arch_installer.Core.Commands.Files.{make_directory}
use arch_installer.Core.Exec.{Machine, Event, Reply, success, plain, do_attempt}
use arch_installer.Core.Exec.Emits.{replied_zero, Succeeds}
use arch_installer.Core.Exec.Leads.{
  Leads, keeps_rules, Leads-bind, Leads-run_with, Leads-finally, Leads-any, Leads-raise, Keeps-pure,
  Keeps-bind, Keeps-if,
}
use arch_installer.Core.Exec.Held.{
  IsReleased, Starts, Any, Leads-attempt, Leads-certain, stronger, or_error, other_command,
}
use arch_installer.Config.Models.{InstallerConfig}
use arch_installer.Executors.Migration.Staging.{
  old_mapper_name, old_mount_directory, first_luks_partition, find_luks_partition, unlock_old,
  mount_old, open_and_mount, unmount_and_close, stage, execute,
}

-- whether a command opens the old volume, with the given reply, or closes it
abbrev pub volume_event : Reply → Command → Option Bool
volume_event r (disk (luks_open options d name)) =
    if name == old_mapper_name then (if replied_zero r then some true else none) else none
volume_event r (disk (luks_close name)) = if name == old_mapper_name then some false else none
volume_event r _ = none

abbrev pub IsClosed : Machine → List Event → Type 0
IsClosed = IsReleased volume_event

module _ {w : Machine} where
  first_luks_partition-IsClosed :
      (d : String) (partitions : List String)
      → Leads w (IsClosed w) (first_luks_partition d partitions) (λ _. IsClosed w) (IsClosed w)
  unfolding first_luks_partition
  first_luks_partition-IsClosed d [] = Leads-raise _
  first_luks_partition-IsClosed d (partition ∷ partitions) =
      Keeps-bind _ _ (search (keeps_rules, other_command volume_event) depth 20) λ is_luks.
        Keeps-if is_luks _ _ (Keeps-pure partition) (first_luks_partition-IsClosed d partitions)

  find_luks_partition-IsClosed :
      (d : String) → Leads w (IsClosed w) (find_luks_partition d) (λ _. IsClosed w) (IsClosed w)
  unfolding find_luks_partition
  find_luks_partition-IsClosed d =
      search (keeps_rules, other_command volume_event, first_luks_partition-IsClosed) depth 40

  close-IsClosed :
      Leads w Any (do_attempt (disk (luks_close old_mapper_name))) (λ _. IsClosed w) (IsClosed w)
  close-IsClosed =
      Leads-bind (λ _. IsClosed w) _ _ (Leads-run_with false _ (λ tr p. refl) (λ tr p. refl))
        λ _. Keeps-pure tt

module _ {w : Machine} (starts : Starts w) where
  unlock_old-IsClosed :
      (config : InstallerConfig) (partition : String)
      → Leads w (IsClosed w) (unlock_old config partition) (λ _. Any) (IsClosed w)
  unfolding unlock_old
  unlock_old-IsClosed config partition =
      Leads-bind (λ r tr. success r ≡ false → IsClosed w tr) _ _
        (Leads-attempt starts _ _ (λ tr r p s f. rw (sym s, f) p))
        λ r. or_error (success r) _ (λ f. stronger _ (λ tr p. p f) (Leads-raise _))

  unmount_and_close-IsClosed : Leads w Any unmount_and_close (λ _. IsClosed w) (IsClosed w)
  unfolding unmount_and_close
  unmount_and_close-IsClosed =
      Leads-bind (λ _. Any) _ _
        (Leads-bind (λ _. Any) _ _ (Leads-attempt starts _ _ (λ tr r p s. tt)) (λ _. Keeps-pure tt))
        λ _.
          Leads-bind (λ _. IsClosed w) _ _ close-IsClosed
            λ _. search (keeps_rules, other_command volume_event) depth 20

module _ {w : Machine} (starts : Starts w)
    (creates : Succeeds w (plain (files (make_directory old_mount_directory)))) where
  mount_old-IsClosed : Leads w Any mount_old (λ _. Any) (IsClosed w)
  unfolding mount_old
  mount_old-IsClosed =
      Leads-bind (λ _. Any) _ _
        (Leads-bind (λ _. Any) _ _ (Leads-certain _ creates) (λ _. Keeps-pure tt))
        λ _.
          Leads-bind (λ _. Any) _ _ (Leads-attempt starts _ _ (λ tr r p s. tt))
            λ mounted.
              or_error (success mounted) _
                (λ f. Leads-bind (λ _. IsClosed w) _ _ close-IsClosed (λ _. Leads-raise _))

  -- On a machine where every command can be started and the mount point of the old system can be made,
  -- the staging of a migration never ends, whether it returns or raises, with the old volume opened
  -- and no attempt made to close it since, if it starts so.
  pub execute-IsClosed :
      (config : InstallerConfig)
      → Leads w (IsClosed w) (execute config) (λ _. IsClosed w) (IsClosed w)
  unfolding execute open_and_mount
  execute-IsClosed config =
      Leads-bind (λ _. IsClosed w) _ _ (find_luks_partition-IsClosed config.storage.target_disk)
        λ luks_partition.
          Leads-bind (λ _. Any) _ _
            (Leads-bind (λ _. Any) _ _ (unlock_old-IsClosed starts config luks_partition)
              (λ _. mount_old-IsClosed))
            λ _.
              Leads-finally Any _ unmount_and_close (Leads-any (stage config luks_partition))
                (unmount_and_close-IsClosed starts)
