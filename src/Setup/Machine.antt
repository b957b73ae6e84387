-- ===== src/Setup/Machine.antt =====
-- setup/machine.py: the disks of the machine, as the setup offers them.
pub mod Listed
use arch_installer.Prelude.{
  String, Bool, ◌<>◌, ◌==◌, ◌++◌, ◌||◌, true, false, List, [], ◌∷◌, is_space, strip, strip_right,
  split_on, split_words, last_or, if◌then◌else◌,
}
use arch_installer.Core.Commands.{probe}
use arch_installer.Core.Commands.Probes.{Probe}
use arch_installer.Core.Exec.{Exec, CommandExecutionResult, success, pure, attempt, ◌>>=◌}
use arch_installer.Install.Questions.{Disk}

has_space : String → Bool
has_space String.[] = false
has_space (String.◌∷◌ c s) = is_space c || has_space s

up_to_last_space : String → String
up_to_last_space String.[] = ""
up_to_last_space (String.◌∷◌ c s) =
    let rest = up_to_last_space s in if is_space c || has_space s then String.◌∷◌ c rest else ""

abbrev rsplit_parts : String → List String → List String
rsplit_parts first [] = []
rsplit_parts first (word ∷ words) =
    if first == "" then last_or word words ∷ [] else first ∷ last_or word words ∷ []

-- `s.rsplit(maxsplit=1)`
unfoldable rsplit_once : String → List String
unfolding up_to_last_space has_space
rsplit_once s = rsplit_parts (strip_right (up_to_last_space (strip_right s))) (split_words s)

abbrev model_and_size_of : List String → String × String
model_and_size_of [] = ("unknown", "unknown")
model_and_size_of (size ∷ []) = ("unknown", size)
model_and_size_of (model ∷ size ∷ parts) = (model, size)

unfoldable pub model_and_size : String → Exec (String × String)
unfolding rsplit_once
model_and_size path = do
  result ← attempt (probe (Probe.disk_model path))
  pure (
      if success result
      then model_and_size_of (rsplit_once (strip result.stdout))
      else ("unknown", "unknown"))

-- the names of the lines whose type is `disk`
abbrev pub disk_name : List String → List String
disk_name [] = []
disk_name (name ∷ []) = []
disk_name (name ∷ type ∷ parts) = if type == "disk" then name ∷ [] else []

abbrev pub disk_names : List String → List String
disk_names [] = []
disk_names (line ∷ lines) = disk_name (split_words line) ++ disk_names lines

unfoldable pub disks_named : List String → Exec (List Disk)
disks_named [] = pure []
disks_named (name ∷ names) = do
  (model, size) ← model_and_size ("/dev/" <> name)
  disks ← disks_named names
  pure (record { path = "/dev/" <> name; model = model; size = size } ∷ disks)

unfoldable pub disks : Exec (List Disk)
disks = do
  result ← attempt (probe Probe.list_disks)
  if success result then disks_named (disk_names (split_on 10 (strip result.stdout))) else pure []
