-- ===== src/Errors.antt =====
-- src/arch_installer/errors.py, with Python's own errors that the program raises or lets through.
-- A pure function that may raise returns a `Result`.
use arch_installer.Prelude.{List, String, ◌<>◌, Bool, true, false, ℕ, show_nat}

-- A process exits with a status, or a signal ends it: Python's `returncode` is then `-signal`.
pub data ExitCode : Type 0 where
  status : ℕ → ExitCode
  signal : ℕ → ExitCode

unfoldable pub show_exit_code : ExitCode → String
show_exit_code (status n) = show_nat n
show_exit_code (signal n) = "-" <> show_nat n

pub record CommandError : Type 0 where
  pub command : String
  pub exit_code : ExitCode
  pub stdout : String
  pub stderr : String

pub data Error : Type 0 where
  command_error : CommandError → Error
  configuration_error : String → Error
  -- `MissingSettingsError`, with its setting paths
  missing_settings_error : List String → Error
  migration_error : String → Error
  usb_boot_drive_error : String → Error
  runtime_error : String → Error
  value_error : String → Error
  -- a sequence has no such member
  index_error : Error
  -- a mapping has no such key
  key_error : Error
  -- a value of another type is wanted
  type_error : Error
  -- an object has no such attribute
  attribute_error : Error
  keyboard_interrupt : String → Error

-- `isinstance(error, ArchInstallerError)`
unfoldable pub is_arch_installer_error : Error → Bool
is_arch_installer_error (command_error e) = true
is_arch_installer_error (configuration_error m) = true
is_arch_installer_error (missing_settings_error paths) = true
is_arch_installer_error (migration_error m) = true
is_arch_installer_error (usb_boot_drive_error m) = true
is_arch_installer_error _ = false

-- `CommandError.__str__`
unfoldable pub show_command_error : CommandError → String
unfolding show_exit_code
show_command_error e =
    "Command '"
    <> e.command
    <> "' failed with exit code "
    <> show_exit_code e.exit_code
    <> "\nstdout: "
    <> e.stdout
    <> "\nstderr: "
    <> e.stderr

pub data Result {ℓ} (A : Type ℓ) : Type ℓ where
  ok : A → Result A
  err : Error → Result A

module _ {ℓ κ} {A : Type ℓ} {B : Type κ} where
  infixl 10 ◌>>=◌
  abbrev pub ◌>>=◌ : Result A → (A → Result B) → Result B
  ok a >>= f = f a
  err e >>= f = err e

module _ {ℓ κ} {A : Type ℓ} {B : Type κ} where
  abbrev pub map_result : (A → B) → Result A → Result B
  map_result f (ok a) = ok (f a)
  map_result f (err e) = err e

-- What a result satisfies if it is no error.
abbrev pub Holds {ℓ κ} : {A : Type ℓ} → (A → Type κ) → Result A → Type κ
Holds Q (ok a) = Q a
Holds Q (err e) = Unit

pub Holds-bind {ℓ κ} :
    {A B : Type ℓ} (Q : A → Type κ) (R : B → Type κ) (r : Result A) (f : A → Result B)
    → Holds Q r
    → ((a : A) → Q a → Holds R (f a))
    → Holds R (r >>= f)
Holds-bind Q R (ok a) f q h = h a q
Holds-bind Q R (err e) f q h = tt
