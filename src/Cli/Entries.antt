-- ===== src/Cli/Entries.antt =====
-- cli.py: the commands arch-installer, clone-usb-boot and usb-backup, from the console and the machine
-- to the exit status.
pub mod Safety
pub mod Unattended
use arch_installer.Prelude.{
  String, ◌==◌, Bool, true, false, ◌||◌, Option, none, some, List, [], ◌∷◌, lower, if◌then◌else◌,
}
use arch_installer.Prelude.Dict.{Dict}
use arch_installer.Errors.{configuration_error, Result, ok, err}
use arch_installer.Core.Exec.{Machine, Event, Exec, Done}
use arch_installer.Config.Value.{text}
use arch_installer.Config.Models.{InstallerConfig}
use arch_installer.Config.Environment.{raw}
use arch_installer.Install.Installer.{install}
use arch_installer.Executors.UsbBoot.Cloner.{clone}
use arch_installer.Executors.UsbBackup
use arch_installer.Tui.Curses.{run_tui_setup}
use arch_installer.Cli.{Ending, run_entry, validate_for_install}
use arch_installer.Cli.Terminal.{
  Console, Outcome, waiting, failed, ended, Terminal, pure, or_raise, in_setup, ◌>>=◌,
}
use arch_installer.Cli.Assembly.{Host, TuiSetup, is_interactive, assemble_installer_config}

pub data LogLevel : Type 0 where
  debug info warning : LogLevel

unfoldable pub log_level : Dict String → LogLevel
log_level variables =
    let verbose = lower (raw variables "VERBOSE") in
    if verbose == "true" then debug else if verbose == "quiet" then warning else info

-- how far a run is: it waits for the user, or has ended
pub data Progress : Type 0 where
  pending : Progress
  finished : Ending → Progress

abbrev pub finish : {A : Type 0} → Result A × List Event → Progress × List Event
finish (r, tr) = (finished (run_entry r), tr)

-- `_run`, of an entry that first talks to the user and then runs commands
unfoldable pub run_after :
    {A : Type 0} → Outcome A → (A → Exec Done) → Machine → Progress × List Event
run_after (waiting tr) commands w = (pending, tr)
run_after {A} (failed e tr) commands w = (finished (run_entry {A = A} (err e)), tr)
run_after (ended a tr console) commands w = finish (commands a w tr)

abbrev pub setup_if : Host → Machine → Bool → Option TuiSetup
setup_if host w true = some (λ inherited. in_setup w (run_tui_setup host.str inherited))
setup_if host w false = none

-- `_install` up to the installer
unfoldable pub prepare_install : Host → Machine → Dict String → Terminal InstallerConfig
prepare_install host w variables = do
  interactive ← or_raise (is_interactive host variables)
  config ← assemble_installer_config host variables (setup_if host w interactive)
  _ ← or_raise (validate_for_install config)
  pure config

unfoldable pub main : Host → Dict String → Console → Machine → List Event → Progress × List Event
unfolding run_after prepare_install
main host variables console w tr =
    run_after (prepare_install host w variables tr console)
      (install host.safe_dump (λ t. host.repr (text t))) w

unfoldable pub clone_usb_boot : Dict String → Machine → List Event → Progress × List Event
clone_usb_boot variables w tr =
    let source_device = raw variables "USB_BOOT_DEVICE" in
    let spare_device = raw variables "SPARE_USB_DEVICE" in
    if source_device == "" || spare_device == ""
    then finish {A = Done} (
      err (
          configuration_error
            "Cloning needs the USB boot drive (USB_BOOT_DEVICE) and the spare drive (SPARE_USB_DEVICE)"),
      tr,
    )
    else finish (clone source_device spare_device w tr)

unfoldable pub usb_backup :
    Host → Dict String → Console → Machine → List Event → Progress × List Event
unfolding run_after
usb_backup host variables console w tr =
    run_after (assemble_installer_config host variables none tr console)
      (UsbBackup.execute host.safe_dump) w
