-- ===== src/Core/Commands.antt =====
-- Every command line that the modelled executors run, as data. `command_text` is the text that the
-- source builds with an f-string; nothing but the text reaches the machine.
pub mod Probes
pub mod Disks
pub mod Files
pub mod Chroot
use arch_installer.Prelude.{String, ◌<>◌, Bool, true, false, List, []}
use Probes.{Probe, probe_text}
use Disks.{DiskCommand, disk_text, overwritten_devices}
use Files.{FileCommand, file_text, written_paths, device_paths}
use Chroot.{ChrootCommand, chroot_text}

pub data Command : Type 0 where
  probe : Probe → Command
  disk : DiskCommand → Command
  files : FileCommand → Command
  chroot : ChrootCommand → Command

-- `run_as_chroot`, at the only root that is passed to it.
unfoldable pub command_text : Command → String
command_text (probe c) = probe_text c
command_text (disk c) = disk_text c
command_text (files c) = file_text c
command_text (chroot c) = "arch-chroot /mnt " <> chroot_text c

-- The devices whose old contents a command erases or overwrites: those of the commands on disks, and
-- device nodes that a command on files writes to. What runs in the target writes to the mounted system.
abbrev pub overwrites : Command → List String
overwrites (disk c) = overwritten_devices c
overwrites (files c) = device_paths (written_paths c)
overwrites _ = []

abbrev pub is_probe : Command → Bool
is_probe (probe c) = true
is_probe _ = false
