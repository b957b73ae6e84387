-- ===== src/Lib.antt =====
-- arch_installer installs Arch Linux over an encrypted Btrfs volume. It reads its settings from the
-- environment, from config.yaml and from an interactive setup, builds an immutable configuration of
-- them, and runs one executor for each enabled step; an executor only runs shell commands.
--
-- The program's parts, and the files that model them (paths below src/arch_installer):
--   * errors.py, core/command.py: Errors, Core. Code that runs commands is a function from a machine
--     and the trace of what was run to a result and a longer trace (Core.Exec). The machine is a
--     parameter: its reply to a command may depend on everything run before. Command lines are data
--     (Core.Commands) with the text that the source builds, so that a theorem can speak of the device
--     that a command overwrites. Errors are values; what was run before an error stays in the trace.
--   * core/secrets.py: Core.Secrets, with the ciphers of the cryptography package, the codecs and the
--     random bytes as parameters.
--   * config/models.py: Config.Models, one record for each dataclass. An int is an integer, a
--     tuple[T, ...] a list, a StrEnum a data type.
--   * config/value_precedence.py: Config.ValuePrecedence. Mappings are association lists with the
--     first entry of a key in force (Prelude.Dict).
--   * config/installer_config_builder.py: Config.Builder, over a description of the dataclasses as
--     data (Config.Schema) and the values that YAML gives (Config.Value). `repr` is a parameter.
--     Config.Reading reads the texts of the environment, config/environment.py: Config.Environment.
--   * executors/: Executors, a module for each file: Base (base.py), Storage (storage.py), UsbBoot
--     (usb_boot.py), Boot (boot.py), Packages, System, Mirrors, Gpu, Firewall, Docker, Snapper,
--     Migration, Recovery and UsbBackup (usb_backup.py). An executor
--     is a function from the configuration to code that runs commands, and every run of it is total:
--     `for` loops are over lists, and the waits for a partition count their 20 and 15 polls down.
--     `cmd(..., raise_on_nonzero_exit=False)` is `attempt`, without that argument it is `run`.
--   * config/models.py again: Config.AsDict is `asdict` of a configuration, Config.Declared what the
--     builder sees of the dataclasses, Config.Exported what final_config.yaml holds.
--     Config.Instances finds the instance with given values. config/config_file.py: Config.File, over
--     what `yaml.safe_load` makes of the file. config/secrets_file.py: Config.SecretsFile, on lines.
--   * install_steps/: Install.Steps, Questions, Wiring, Conditions, Choices, Settings and Registry.
--     installer.py: Install.Installer. expected_state.py: Install.ExpectedState, with
--     Install.ExpectedState.Shell for how a POSIX shell reads such a file.
--   * setup/: Setup.Frontend is the port of the front-ends, a record of operations, and Setup.Session,
--     Questions and Run ask the questions of the steps through it. A front-end is code that reads key
--     presses (Setup.Ui); each press stands with the height of the screen when it is read.
--     Setup.Machine asks `lsblk` for the disks, on the machine, in the middle of the session:
--     Setup.Talk joins the code that reads key presses with the code that runs commands.
--   * tui/: Tui.Keys, Lists, Menus, Entry and Rows are the widgets, Tui.Curses the front-end that fills
--     the port. Lists and fields recur on the presses. The password loop has as fuel one more than
--     the number of presses, and reads at least one in each round, so that more fuel changes nothing
--     (Tui.Entry.Fuel). Where the presses run out, the code waits; Ctrl+C raises KeyboardInterrupt there.
--   * cli.py: Cli has the validation before an installation and the exit statuses, Cli.Terminal code that
--     talks to the user, Cli.Prompts the secrets that are typed, Cli.Assembly the configuration from all
--     its sources, Cli.Entries the three installing commands up to their exit status, Cli.SecretCommands
--     encrypt-secrets and decrypt-secrets. Prompts recur on the lines that are typed.
--
-- Theorems about executors hold on every machine, or name as a hypothesis how the machine answers.
-- Core.Exec.Emits has the logic they are proved in: `Emits w P m` says that everything `m` adds to the
-- trace on `w` satisfies `P`, whether `m` returns or raises.
--
-- Core.Exec.Leads has assertions before and after: `Leads w P m Q X` says that from a trace with P,
-- `m` ends in a trace with Q if it returns, and with X if it raises. Core.Exec.Added says of two traces
-- that the second adds only events of a kind to the first. Core.Exec.Held has what commands
-- take and release: an opened volume, a mount.
--
-- Not modelled: log messages, timing, the drawing of the interface and the shell scripts. A command does
-- to the machine what the machine, a parameter, makes of it: only the devices that a command overwrites
-- are told from the command itself (Core.Commands.Disks), a detached LUKS header's among them, and a
-- command that writes a file overwrites a device where the path is below /dev/ (Core.Commands.Files). A
-- command that is run in the new system, pacman's for one, counts as overwriting none. Texts are read
-- as Python reads them, but digits of other scripts than 0 to 9 count as no digits. The instance that
-- the builder makes of its values is the one that `asdict` turns back into them (Config.Instances).
pub mod Prelude
pub mod Errors
pub mod Core
pub mod Config
pub mod Executors
pub mod Cli
pub mod Install
pub mod Setup
pub mod Tui
mod Tests
