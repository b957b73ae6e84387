-- ===== src/Install/ExpectedState.antt =====
-- expected_state.py: the values that verify-install checks, as shell assignments.
pub mod Words
pub mod Shell
pub mod Sourced
use arch_installer.Prelude.{String, ◌<>◌, join, Bool, ◌&&◌, List, [], ◌∷◌, map, if◌then◌else◌}
use arch_installer.Config.Models.Enums.{gpu_vendor_text, gpu_driver_text}
use arch_installer.Config.Models.System.{full_locale}
use arch_installer.Config.Models.Boot.{kernel_packages}
use arch_installer.Config.Models.{InstallerConfig}
use arch_installer.Install.ExpectedState.Words.{quote}

abbrev pub expected_state_path : String
expected_state_path = "/etc/dali/expected-state.env"

-- `str | bool`
pub data StateValue : Type 0 where
  word : String → StateValue
  switch : Bool → StateValue

unfoldable pub shell_word : StateValue → String
shell_word (switch value) = if value then "true" else "false"
shell_word (word value) = quote value

unfoldable pub expected_state_values : InstallerConfig → List (String × StateValue)
expected_state_values config =
    ("EXPECTED_HOSTNAME", word config.system.hostname)
    ∷ ("EXPECTED_TIMEZONE", word config.system.timezone)
    ∷ ("EXPECTED_LOCALE", word (full_locale config.system.locale))
    ∷ ("EXPECTED_KEYMAP", word config.system.locale.keymap)
    ∷ ("EXPECTED_USER", word config.system.user.name)
    ∷ ("EXPECTED_SWAP_ENABLED", switch config.storage.swap.enabled)
    ∷ ("EXPECTED_SWAP_PATH", word config.storage.swap.path)
    ∷ ("EXPECTED_KERNEL_PACKAGES", word (join " " (kernel_packages config.boot)))
    ∷ ("EXPECTED_DISPLAY_MANAGERS", word (join " " config.packages.display_manager))
    ∷ ("EXPECTED_SNAPPER_ENABLED", switch config.snapper.enabled)
    ∷ ("EXPECTED_FIREWALL_ENABLED", switch config.firewall.enabled)
    ∷ ("EXPECTED_GPU_VENDOR", word (gpu_vendor_text config.gpu.vendor))
    ∷ ("EXPECTED_GPU_DRIVER", word (gpu_driver_text config.gpu.driver))
    ∷ ("EXPECTED_USB_BOOT", switch config.usb_boot.enabled)
    ∷ (
      "EXPECTED_RECOVERY_SYSTEM",
      switch (config.usb_boot.enabled && config.usb_boot.recovery_system),
    )
    ∷ []

unfoldable pub assignment : String × StateValue → String
unfolding shell_word
assignment (name, value) = name <> "=" <> shell_word value

unfoldable pub expected_state_file : InstallerConfig → String
unfolding expected_state_values assignment
expected_state_file config =
    join "\n" (
      "# written by the DALI installer from the final configuration, read by verify-install"
      ∷ map assignment (expected_state_values config))
    <> "\n"
