-- ===== src/Install/Settings/Disks.antt =====
-- install_steps/registry.py: the settings of the steps for the disks, with variables and questions.
use arch_installer.Prelude.{true, false, some, List, [], ◌∷◌}
use arch_installer.Install.Questions.{
  fixed, computed, from_disks, choose_one, enter_text, enter_secret, switch,
}
use arch_installer.Install.Choices.{wipe_choices, detected_disk_choices, swap_size_choices}
use arch_installer.Install.Wiring.{StepSetting, always, when}
use arch_installer.Install.Conditions.{recovery_system_wanted}

abbrev pub migration_staging_settings : List StepSetting
migration_staging_settings =
    record {
      path = "migration.enabled";
      environment_variable = some "ENABLE_MIGRATION";
      question = some (
          switch (record {
            label = "Installation type";
            on_label = "Migration from existing Arch";
            off_label = "Fresh installation";
            description = "";
          }));
      asked_when = always;
    }
    ∷ record {
      path = "credentials.source_luks_password";
      environment_variable = some "SOURCE_LUKS_PASSWORD";
      question = some (
          enter_secret (record {
            label = "Old disk password";
            prompt = "LUKS password of the existing install:";
            confirm = false;
          }));
      asked_when = when "migration.enabled";
    }
    ∷ []

abbrev pub usb_boot_drive_settings : List StepSetting
usb_boot_drive_settings =
    record {
      path = "usb_boot.enabled";
      environment_variable = some "ENABLE_USB_BOOT";
      question = some (
          switch (record {
            label = "USB boot drive";
            on_label = "Yes - EFI partition and LUKS header on a USB drive";
            off_label = "No - boot from the internal disk";
            description =
                "The internal disk keeps only ciphertext; the system starts and unlocks only with the drive.";
          }));
      asked_when = always;
    }
    ∷ record {
      path = "usb_boot.device";
      environment_variable = some "USB_BOOT_DEVICE";
      question = some (
          choose_one (record {
            label = "USB drive";
            choices = from_disks detected_disk_choices;
            description = "Select the USB drive (ALL DATA ON IT WILL BE ERASED):";
            typed_prompt = "Enter the USB drive path (e.g. /dev/sdb):";
          }));
      asked_when = when "usb_boot.enabled";
    }
    ∷ record {
      path = "usb_boot.recovery_system";
      environment_variable = some "ENABLE_RECOVERY_SYSTEM";
      question = some (
          switch (record {
            label = "Recovery system";
            on_label = "Yes - signed Arch live system on the drive";
            off_label = "No";
            description =
                "Boot the Arch ISO from the drive under Secure Boot to repair the system.";
          }));
      asked_when = when "usb_boot.enabled";
    }
    ∷ record {
      path = "usb_boot.iso_path";
      environment_variable = some "ISO_PATH";
      question = some (
          enter_text (record {
            label = "Recovery ISO";
            prompt = "Arch ISO file, or the live medium (e.g. /dev/sr0):";
          }));
      asked_when = recovery_system_wanted;
    }
    ∷ []

abbrev pub storage_settings : List StepSetting
storage_settings =
    record {
      path = "storage.target_disk";
      environment_variable = some "TARGET_DISK";
      question = some (
          choose_one (record {
            label = "Disk";
            choices = from_disks detected_disk_choices;
            description = "Select target disk (ALL DATA WILL BE ERASED):";
            typed_prompt = "Enter disk path (e.g. /dev/sda):";
          }));
      asked_when = always;
    }
    ∷ record {
      path = "storage.wipe_method";
      environment_variable = some "WIPE_METHOD";
      question = some (
          choose_one (record {
            label = "Wipe method";
            choices = fixed wipe_choices;
            description = "";
            typed_prompt = "";
          }));
      asked_when = always;
    }
    ∷ record {
      path = "storage.swap.enabled";
      environment_variable = some "ENABLE_SWAP";
      question = some (
          switch
            (record { label = "Swap file"; on_label = "On"; off_label = "Off"; description = "" }));
      asked_when = always;
    }
    ∷ record {
      path = "storage.swap.size_mb";
      environment_variable = some "SWAP_SIZE_MB";
      question = some (
          choose_one (record {
            label = "Swap size";
            choices = computed swap_size_choices;
            description = "";
            typed_prompt = "";
          }));
      asked_when = when "storage.swap.enabled";
    }
    ∷ record {
      path = "storage.swap.hibernation";
      environment_variable = some "ENABLE_HIBERNATION";
      question = some (
          switch (record {
            label = "Hibernation";
            on_label = "On";
            off_label = "Off";
            description = "Resume from the swapfile after power-off.";
          }));
      asked_when = when "storage.swap.enabled";
    }
    ∷ record {
      path = "credentials.luks_password";
      environment_variable = some "LUKS_PASSWORD";
      question = some (
          enter_secret (record {
            label = "LUKS password";
            prompt = "LUKS encryption password:";
            confirm = true;
          }));
      asked_when = always;
    }
    ∷ []
