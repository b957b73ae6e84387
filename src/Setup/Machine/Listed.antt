-- ===== src/Setup/Machine/Listed.antt =====
-- The disks that the setup offers, by what `lsblk` lists.
use arch_installer.Prelude.{
  ◌≡◌, refl, ap, String, ◌<>◌, true, false, List, [], ◌∷◌, map, strip, split_on, if◌then◌else◌,
  Bool, Bool-cases, sym, subst, ◌==◌, eq_iff, ◌∙◌, ◌++◌, split_words, inl, inr, ◌⊎◌,
}
use arch_installer.Errors.{status, ok, err, Result}
use arch_installer.Core.Commands.{Command, command_text, probe}
use arch_installer.Core.Commands.Probes.{Probe}
use arch_installer.Core.Exec.{
  Machine, Reply, not_found, completed, is_zero, Event, ran, plain, Invocation,
  CommandExecutionResult, conclude, run_with, attempt, Exec, ◌>>=◌,
}
use arch_installer.Core.Exec.Leads.{Ends, Leads, Leads-bind, Leads-pure}
use arch_installer.Setup.Machine.{model_and_size, disks_named, disk_name, disk_names, disks}
use arch_installer.Install.Questions.{Disk}

abbrev pub IsFound : Reply → Type 0
IsFound (not_found reason) = ⊥
IsFound (completed code out problem) = Unit {0}

abbrev Any : List Event → Type 0
Any tr = Unit {0}

abbrev pub Never : List Event → Type 0
Never tr = ⊥

abbrev pub device_path : String → String
device_path name = "/dev/" <> name

-- the line of a disk of this name
abbrev pub IsDiskLine : String → String → Type 0
IsDiskLine line name = (words : List String) × (split_words line ≡ name ∷ "disk" ∷ words)

-- the paths are those of the disks that the lines tell of, in their order
abbrev pub Lists : List String → List String → Type 0
Lists [] paths = paths ≡ []
Lists (line ∷ lines) paths =
    ((name : String) × (rest : List String) × IsDiskLine line name
      × (paths ≡ device_path name ∷ rest)
      × Lists lines rest)
    ⊎ (((name : String) → ¬ IsDiskLine line name) × Lists lines paths)

abbrev second_word : List String → String
second_word (first ∷ second ∷ words) = second
second_word _ = ""

-- a line whose second word is another is no disk's
is_disk_line :
    (line name : String) (words : List String)
    → split_words line ≡ words
    → IsDiskLine line name
    → (second_word words == "disk") ≡ true
is_disk_line line name words e d =
    (eq_iff (second_word words) "disk").1 (ap second_word (sym e ∙ d.1))

line-Lists :
    (line : String) (words lines names : List String)
    → split_words line ≡ words
    → Lists lines (map device_path names)
    → Lists (line ∷ lines) (map device_path (disk_name words ++ names))
line-Lists line [] lines names e h = inr ((λ name d. absurd (cc)), h)
line-Lists line (name ∷ []) lines names e h = inr ((λ name d. absurd (cc)), h)
line-Lists line (name ∷ type ∷ words) lines names e h = elim (Bool-cases (type == "disk")) [
  | inl same ↦ rw same (
      inl (name, map device_path names, (words, rw (sym ((eq_iff type "disk").0 same)) e), refl, h))
  | inr differ ↦
      rw differ (inr ((λ other d. let same = is_disk_line line other _ e d in absurd (cc)), h))
]

names-Lists : (lines : List String) → Lists lines (map device_path (disk_names lines))
names-Lists [] = refl
names-Lists (line ∷ lines) =
    line-Lists line (split_words line) lines (disk_names lines) refl (names-Lists lines)

-- `m` returns on every trace, with a value that `Q` holds of
abbrev Returns : {A : Type 0} → Machine → (A → Type 0) → Exec A → Type 0
Returns w Q m = Leads w Any m (λ a tr. Q a) Never

test-found :
    (b : Bool) (r : CommandExecutionResult) (e : CommandExecutionResult) (new : List Event)
    → Ends (λ _ _. Unit {0}) Never (if b then ok r else ok e) new
test-found true r e new = tt
test-found false r e new = tt

conclude-found :
    (text : String) (r : Reply) (new : List Event)
    → IsFound r
    → Ends (λ _ _. Unit {0}) Never (conclude text false r) new
unfolding conclude
conclude-found text (not_found reason) new found = elim found [ ]
conclude-found text (completed code out problem) new found = test-found (is_zero code) _ _ new

Ends-listed :
    (lines : List String) (r : Result (List Disk)) (tr : List Event)
    → Ends (λ ds _. map (λ d. d.path) ds ≡ map device_path (disk_names lines)) Never r tr
    → Ends (λ ds _. Lists lines (map (λ d. d.path) ds)) Never r tr
Ends-listed lines (ok ds) tr same = subst (Lists lines) (sym same) (names-Lists lines)
Ends-listed lines (err e) tr h = h

module _ (w : Machine) (found : (tr : List Event) (i : Invocation) → IsFound (w tr i)) where
  attempt-Returns : (c : Command) → Returns w (λ _. Unit {0}) (attempt c)
  unfolding run_with
  attempt-Returns c = record {
    at = λ tr _.
        conclude-found (command_text c) (w tr (plain c)) (ran (plain c) ∷ tr) (found tr (plain c));
  }

  disks_named-Returns :
      (names : List String)
      → Returns w (λ ds. map (λ d. d.path) ds ≡ map device_path names) (disks_named names)
  unfolding disks_named model_and_size
  disks_named-Returns [] = Leads-pure _ [] λ tr _. refl
  disks_named-Returns (name ∷ names) =
      Leads-bind (λ _. Any) (model_and_size (device_path name)) _
        (Leads-bind (λ _. Any) (attempt (probe (Probe.disk_model (device_path name)))) _
          (attempt-Returns _) λ r. Leads-pure (λ _. Any) _ λ tr p. tt)
        λ facts.
          Leads-bind (λ ds tr. map (λ d. d.path) ds ≡ map device_path names) (disks_named names) _
            (disks_named-Returns names)
            λ ds. Leads-pure _ _ λ tr same. ap (λ ps. device_path name ∷ ps) same

  named-Lists :
      (lines : List String)
      → Returns w (λ ds. Lists lines (map (λ d. d.path) ds)) (disks_named (disk_names lines))
  named-Lists lines = record {
    at = λ tr _.
        Ends-listed lines (disks_named (disk_names lines) w tr).0
          (disks_named (disk_names lines) w tr).1
          ((disks_named-Returns (disk_names lines)).at tr tt);
  }

  -- Where `lsblk` lists the disks, with every later command found, the setup lists without an error
  -- exactly one disk for each line of the listing whose second word is `disk`, in the order of the
  -- lines, each by the line's first word below /dev, and none for any other line.
  pub disks-listed :
      (tr : List Event) (out problem : String)
      → w tr (plain (probe Probe.list_disks)) ≡ completed (status 0) out problem
      → Ends
          (λ ds _. Lists (split_on 10 (strip out)) (map (λ d. d.path) ds))
          Never
          (disks w tr).0
          (disks w tr).1
  unfolding disks run_with conclude ◌>>=◌
  disks-listed tr out problem listed =
      rw listed
        ((named-Lists (split_on 10 (strip out))).at (ran (plain (probe Probe.list_disks)) ∷ tr) tt)
