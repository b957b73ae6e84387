-- ===== src/Executors/Firewall/Guard.antt =====
-- executors/firewall.py: ufw is only called while ufw.conf says that it is off, since it would change
-- the firewall of the running kernel.
use arch_installer.Prelude.{
  ◌≡◌, arith, String, ◌==◌, Bool, true, false, Option, none, some, List, [], ◌∷◌, if◌then◌else◌,
}
use arch_installer.Core.Commands.{Command, chroot, files}
use arch_installer.Core.Commands.Chroot
use arch_installer.Core.Commands.Files.{edit}
use arch_installer.Core.Exec.{Event, ran, slept}
use arch_installer.Core.Exec.Leads.{Leads}
use arch_installer.Executors.Firewall.{ufw_conf, enabled_script}

-- what an edit of the file writes to the flag
abbrev pub flag_of_edit : String → Option Bool
flag_of_edit script =
    if script == enabled_script true
    then some true
    else if script == enabled_script false
    then some false
    else none

abbrev pub flag_written : Command → Option Bool
flag_written (files (edit script path)) = if path == ufw_conf then flag_of_edit script else none
flag_written _ = none

abbrev or_older : Option Bool → Option Bool → Option Bool
or_older (some b) older = some b
or_older none older = older

-- The value that was last written to the flag.
abbrev pub last_flag : List Event → Option Bool
last_flag [] = none
last_flag (ran i ∷ tr) = or_older (flag_written i.command) (last_flag tr)
last_flag (slept n ∷ tr) = last_flag tr

-- A command that changes the rules or the defaults of ufw.
abbrev pub is_ufw : Command → Bool
is_ufw (chroot (Chroot.default_policy direction policy)) = true
is_ufw (chroot Chroot.firewall_logging) = true
is_ufw (chroot (Chroot.allow rule)) = true
is_ufw (chroot (Chroot.allow_from source port)) = true
is_ufw _ = false

-- Whenever ufw was called, the flag was last written as off.
abbrev pub IsGuarded : List Event → Type 0
IsGuarded [] = Unit
IsGuarded (ran i ∷ tr) = (is_ufw i.command ≡ true → last_flag tr ≡ some false) × IsGuarded tr
IsGuarded (slept n ∷ tr) = IsGuarded tr

abbrev pub IsOff : List Event → Type 0
IsOff tr = IsGuarded tr × (last_flag tr ≡ some false)

abbrev pub IsOn : List Event → Type 0
IsOn tr = IsGuarded tr × (last_flag tr ≡ some true)

older-some : (f older : Option Bool) (b : Bool) → f ≡ some b → or_older f older ≡ some b
older-some f older b e = ground arith
