-- ===== src/Tests/Disks.antt =====
-- setup/machine.py, on a machine with a disk and an optical drive.
use arch_installer.Prelude.{◌≡◌, refl, String, map, List, [], ◌∷◌, split_on, strip}
use arch_installer.Errors.{status, ok}
use arch_installer.Core.Commands.{Command, probe}
use arch_installer.Core.Commands.Probes.{Probe}
use arch_installer.Core.Exec.{Machine, completed}
use arch_installer.Core.Exec.Leads.{Ends}
use arch_installer.Setup.Machine.{disks}
use arch_installer.Setup.Machine.Listed.{disks-listed, Lists, Never}

abbrev listing_text : Command → String
listing_text (probe Probe.list_disks) = "vda disk\nsr0 rom\n"
listing_text (probe (Probe.disk_model d)) = "Samsung SSD  1T\n"
listing_text _ = ""

abbrev listing : Machine
listing tr i = completed (status 0) (listing_text i.command) ""

offered :
    (disks listing []).0
    ≡ ok (record { path = "/dev/vda"; model = "Samsung SSD"; size = "1T" } ∷ [])
unfolding disks arch_installer.Core.Exec.◌>>=◌ arch_installer.Core.Exec.run_with
    arch_installer.Core.Exec.conclude arch_installer.Setup.Machine.disks_named
    arch_installer.Setup.Machine.model_and_size arch_installer.Prelude.strip split_on
    arch_installer.Prelude.split_words
offered = refl

disks-listed_example :
    Ends
      (λ ds _. Lists (split_on 10 (strip "vda disk\nsr0 rom\n")) (map (λ d. d.path) ds))
      Never
      (disks listing []).0
      (disks listing []).1
disks-listed_example = disks-listed listing (λ tr i. tt) [] "vda disk\nsr0 rom\n" "" refl
