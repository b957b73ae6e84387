-- ===== src/Config/SecretsFile.antt =====
-- config/secrets_file.py: the encrypted passwords that are written into a config.yaml, line by line.
pub mod Lines
pub mod Edits
pub mod Kept
pub mod Stored
use Prim.Native.Char.{code}
use arch_installer.Prelude.{
  String, ◌<>◌, ◌==◌, starts_with, join, split_on, Bool, true, false, not, ◌&&◌, ◌||◌, eqb, ℕ,
  Option, none, some, List, [], ◌∷◌, ◌++◌, if◌then◌else◌,
}
use arch_installer.Prelude.Dict
use arch_installer.Prelude.Dict.{Dict}
use arch_installer.Errors.{configuration_error, Result, ok, err, ◌>>=◌}
use arch_installer.Config.Value.{Value, text, dict, end, truthy, py_eq}
use arch_installer.Config.Schema.{Section}
use arch_installer.Config.File.{Loaded, invalid, loaded, flatten}
use arch_installer.Config.Models.Features.{EncryptedSecretsConfig}

-- `[ \t]`
abbrev pub is_blank : ℕ → Bool
is_blank n = eqb n 32 || eqb n 9

unfoldable pub indent_of : String → String
indent_of String.[] = ""
indent_of (String.◌∷◌ c s) =
    let rest = indent_of s in if is_blank (code c) then String.◌∷◌ c rest else ""

unfoldable pub without_indent : String → String
without_indent String.[] = ""
without_indent (String.◌∷◌ c s) =
    let rest = without_indent s in if is_blank (code c) then rest else String.◌∷◌ c s

-- the line matches `^[ \t]+key:.*$`
unfoldable pub is_entry : String → String → Bool
unfolding indent_of without_indent
is_entry key line = not (indent_of line == "") && starts_with (without_indent line) (key <> ":")

-- what follows `secrets:` in a line that matches `^secrets:[ \t]*(#.*)?$`
abbrev is_comment_or_empty : String → Bool
is_comment_or_empty String.[] = true
is_comment_or_empty (String.◌∷◌ c s) = eqb (code c) 35

after_prefix : String → String → Option String
after_prefix String.[] s = some s
after_prefix (String.◌∷◌ p ps) String.[] = none
after_prefix (String.◌∷◌ p ps) (String.◌∷◌ c s) =
    let rest = after_prefix ps s in if eqb (code p) (code c) then rest else none

abbrev ends_section_line : Option String → Bool
ends_section_line none = false
ends_section_line (some rest) = is_comment_or_empty (without_indent rest)

unfoldable pub is_section_line : String → Bool
unfolding after_prefix without_indent
is_section_line line = ends_section_line (after_prefix "secrets:" line)

-- `key: 'value'`
abbrev pub entry : String → String → String
entry key encrypted_value = (key <> ":") <> (" '" <> encrypted_value <> "'")

abbrev pub cons_line : String → Option (List String) → Option (List String)
cons_line line none = none
cons_line line (some lines) = some (line ∷ lines)

-- the lines with the first one that passes the test replaced, if there is one
unfoldable pub replace_first :
    (String → Bool) → (String → List String) → List String → Option (List String)
replace_first test new [] = none
replace_first test new (line ∷ lines) =
    let rest = replace_first test new lines in
    if test line then some (new line ++ lines) else cons_line line rest

abbrev pub first_or : {A : Type 0} → Option A → A → A
first_or none a = a
first_or (some a) b = a

abbrev pub cons_unless_empty : String → List String → List String
cons_unless_empty line [] = if line == "" then [] else line ∷ []
cons_unless_empty line (next ∷ lines) = line ∷ next ∷ lines

-- the lines of `config_text.rstrip("\n")`, but none for an empty one
unfoldable pub without_empty_end : List String → List String
without_empty_end [] = []
without_empty_end (line ∷ lines) = cons_unless_empty line (without_empty_end lines)

abbrev pub or_empty_line : List String → List String
or_empty_line [] = "" ∷ []
or_empty_line (line ∷ lines) = line ∷ lines

unfoldable pub with_section : String → String → List String → List String
with_section key encrypted_value lines =
    or_empty_line (without_empty_end lines)
    ++ ("" ∷ "secrets:" ∷ ("  " <> entry key encrypted_value) ∷ "" ∷ [])

unfoldable pub set_lines : String → String → List String → List String
unfolding replace_first is_entry is_section_line
set_lines key encrypted_value lines =
    first_or
      (replace_first (is_entry key) (λ line. (indent_of line <> entry key encrypted_value) ∷ [])
        lines)
      (first_or
        (replace_first is_section_line (λ line. line ∷ ("  " <> entry key encrypted_value) ∷ [])
          lines)
        (with_section key encrypted_value lines))

unfoldable pub set_secret_line : String → String → String → String
unfolding set_lines
set_secret_line config_text key encrypted_value =
    join "\n" (set_lines key encrypted_value (split_on 10 config_text))

-- the two fields by their names, in order
abbrev pub named_secrets : EncryptedSecretsConfig → List (String × String)
named_secrets secrets =
    ("luks_password_encrypted", secrets.luks_password_encrypted)
    ∷ ("user_password_encrypted", secrets.user_password_encrypted)
    ∷ []

abbrev pub is_stored : Option Value → String → Bool
is_stored none expected = false
is_stored (some v) expected = py_eq v (text expected)

unfoldable pub verify_each : String → Dict Value → List (String × String) → Result (Unit {0})
verify_each path stored [] = ok tt
verify_each path stored ((name, expected) ∷ fields) =
    let rest = verify_each path stored fields in
    if not (expected == "") && not (is_stored (Dict.lookup ("secrets." <> name) stored) expected)
    then err (configuration_error ("Could not place " <> name <> " under 'secrets' in " <> path))
    else rest

-- `yaml.safe_load(config_text) or {}`
abbrev pub or_no_fields : Value → Value
or_no_fields v = if truthy v then v else dict end

-- `_verify_stored`, on what the text loads as
abbrev pub verify_loaded : Section → String → Loaded → List (String × String) → Result (Unit {0})
verify_loaded s path (loaded value) fields =
    flatten s (or_no_fields value) "" >>= λ stored. verify_each path stored fields
verify_loaded s path (invalid problem) fields =
    err (configuration_error ("Editing " <> path <> " would break its YAML: " <> problem))

unfoldable pub set_secrets : List (String × String) → String → String
set_secrets [] config_text = config_text
set_secrets ((name, encrypted_value) ∷ fields) config_text = set_secrets fields (
    if encrypted_value == "" then config_text else set_secret_line config_text name encrypted_value)

-- `write_encrypted_secrets`: the text that is written, from the text that the file has
unfoldable pub write_encrypted_secrets :
    Section → (String → Loaded) → String → Option String → EncryptedSecretsConfig → Result String
unfolding set_secrets verify_each
write_encrypted_secrets s load config_path none secrets =
    err (configuration_error ("Configuration file not found: " <> config_path))
write_encrypted_secrets s load config_path (some config_text) secrets =
    let fields = named_secrets secrets in
    let edited = set_secrets fields config_text in
    verify_loaded s config_path (load edited) fields >>= λ _. ok edited
