-- ===== src/Executors/UsbBoot/Cloning.antt =====
-- executors/usb_boot.py: what a clone of the USB boot drive overwrites.
use arch_installer.Prelude.{
  ◌≡◌, refl, ◌==◌, ◌⊎◌, inl, inr, String, true, Option, none, some, List, [], ◌∷◌, ℕ, suc,
}
use arch_installer.Core.Commands.{overwrites, disk}
use arch_installer.Core.Commands.Disks
use arch_installer.Core.Exec.{Machine, Event, ran, slept, do_run}
use arch_installer.Core.Exec.Emits.{Emits, emits_rules, Emits-bind, Emits-run_with, Emits-if}
use arch_installer.Config.Models.Storage.{derive_partition_path}
use arch_installer.Executors.Base.{path_exists}
use arch_installer.Executors.UsbBoot.Inspector.{require_disk, wait_for_partition, holds_luks_header}
use arch_installer.Executors.UsbBoot.Cloner.{
  existing_partitions, no_header, require_header, require_unmounted, copy_partitions,
  compare_headers, copy_drive, clone,
}
use arch_installer.Executors.UsbBoot.Reads.{require_disk-Emits, partition_wait_loop-Emits}

ruleset drive_rules = (emits_rules, tt, inl, inr, refl)

-- What may overwrite the spare drive, or a partition of it, and nothing else.
abbrev pub IsOnDisk : String → List String → Type 0
IsOnDisk device [] = Unit
IsOnDisk device (d ∷ ds) =
    ((d ≡ device) ⊎ ((number : ℕ) × (d ≡ derive_partition_path device number))) × IsOnDisk device ds

abbrev pub OverwritesDisk : String → Event → Type 0
OverwritesDisk device (ran i) = IsOnDisk device (overwrites i.command)
OverwritesDisk device (slept n) = Unit

module _ (w : Machine) (source spare : String) where
  copy_partitions-OverwritesDisk :
      (n : ℕ) (partitions : List String)
      → Emits w (OverwritesDisk spare) (copy_partitions spare n partitions)
  unfolding copy_partitions wait_for_partition
  copy_partitions-OverwritesDisk n [] = search emits_rules
  copy_partitions-OverwritesDisk n (p ∷ ps) =
      Emits-bind (wait_for_partition spare (derive_partition_path spare n)) _
        (partition_wait_loop-Emits w (OverwritesDisk spare) (λ c. tt) (λ k. tt) (λ d. tt) _ _ _)
        λ _.
          Emits-bind (do_run (disk (Disks.copy_device p (derive_partition_path spare n)))) _
            (Emits-bind _ _ (Emits-run_with true _ (inr (n, refl), tt)) (λ _. search emits_rules))
            (λ _. copy_partitions-OverwritesDisk (suc n) ps)

  compare_headers-OverwritesDisk :
      (o : Option String) → Emits w (OverwritesDisk spare) (compare_headers spare o)
  unfolding compare_headers
  compare_headers-OverwritesDisk none = search emits_rules
  compare_headers-OverwritesDisk (some h) = search (emits_rules, tt) depth 30

  copy_drive-OverwritesDisk :
      (partitions : List String)
      → Emits w (OverwritesDisk spare) (copy_drive source spare partitions)
  unfolding copy_drive
  copy_drive-OverwritesDisk partitions =
      search (drive_rules, copy_partitions-OverwritesDisk, compare_headers-OverwritesDisk) depth 40

  require_header-OverwritesDisk :
      (o : Option String) → Emits w (OverwritesDisk spare) (require_header source o)
  unfolding require_header no_header holds_luks_header
  require_header-OverwritesDisk none = search emits_rules
  require_header-OverwritesDisk (some h) = search (emits_rules, tt) depth 30

  checks-OverwritesDisk : (d : String) → Emits w (OverwritesDisk spare) (require_disk d)
  checks-OverwritesDisk d = require_disk-Emits w (OverwritesDisk spare) (λ c. tt) d

  existing_partitions-OverwritesDisk : Emits w (OverwritesDisk spare) (existing_partitions source)
  unfolding existing_partitions path_exists
  existing_partitions-OverwritesDisk = search (emits_rules, tt) depth 30

  require_unmounted-OverwritesDisk : Emits w (OverwritesDisk spare) (require_unmounted spare)
  unfolding require_unmounted
  require_unmounted-OverwritesDisk = search (emits_rules, tt) depth 30

-- On every machine a clone overwrites only the spare drive and partitions of it.
pub clone-OverwritesDisk :
    (w : Machine) (source spare : String) → Emits w (OverwritesDisk spare) (clone source spare)
unfolding clone
clone-OverwritesDisk w source spare = Emits-if (source == spare) _ _ (search emits_rules) (
    Emits-bind (require_disk source) _ (checks-OverwritesDisk w source spare source) λ _.
      Emits-bind (require_disk spare) _ (checks-OverwritesDisk w source spare spare) λ _.
        Emits-bind (existing_partitions source) _
          (existing_partitions-OverwritesDisk w source spare)
          λ ps. Emits-bind _ _ (require_header-OverwritesDisk w source spare _) λ _.
            Emits-bind (require_unmounted spare) _ (require_unmounted-OverwritesDisk w source spare)
              λ _. copy_drive-OverwritesDisk w source spare ps)
