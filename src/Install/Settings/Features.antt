-- ===== src/Install/Settings/Features.antt =====
-- install_steps/registry.py: the settings of the steps for the packages, the system and the features, with variables and questions.
use arch_installer.Prelude.{true, none, some, List, [], ◌∷◌}
use arch_installer.Config.Value.{text}
use arch_installer.Install.Questions.{
  fixed, choose_one, choose_many, enter_text, enter_secret, switch,
}
use arch_installer.Install.Choices.{
  cpu_choices, gpu_choices, nvidia_driver_choices, desktop_choices,
}
use arch_installer.Install.Wiring.{StepSetting, always, when_equal}

abbrev pub packages_settings : List StepSetting
packages_settings =
    record {
      path = "system.cpu_vendor";
      environment_variable = some "CPU_VENDOR";
      question = some (
          choose_one (record {
            label = "CPU vendor";
            choices = fixed cpu_choices;
            description = "";
            typed_prompt = "";
          }));
      asked_when = always;
    }
    ∷ record {
      path = "gpu.vendor";
      environment_variable = some "GPU_VENDOR";
      question = some (
          choose_one (record {
            label = "GPU vendor";
            choices = fixed gpu_choices;
            description = "";
            typed_prompt = "";
          }));
      asked_when = always;
    }
    ∷ record {
      path = "gpu.driver";
      environment_variable = some "GPU_DRIVER";
      question = some (
          choose_one (record {
            label = "NVIDIA driver";
            choices = fixed nvidia_driver_choices;
            description = "";
            typed_prompt = "";
          }));
      asked_when = when_equal "gpu.vendor" (text "nvidia");
    }
    ∷ record {
      path = "packages.selected_desktops";
      environment_variable = some "SELECTED_DESKTOPS";
      question = some (
          choose_many (record {
            label = "Desktops";
            choices = desktop_choices;
            description = "Select desktop environments to install (Space to toggle):";
          }));
      asked_when = always;
    }
    ∷ record {
      path = "boot.selected_kernels";
      environment_variable = some "SELECTED_KERNELS";
      question = none;
      asked_when = always;
    }
    ∷ []

abbrev pub system_settings : List StepSetting
system_settings =
    record {
      path = "system.hostname";
      environment_variable = none;
      question = some (enter_text (record { label = "Hostname"; prompt = "Hostname:" }));
      asked_when = always;
    }
    ∷ record {
      path = "system.user.name";
      environment_variable = none;
      question = some (enter_text (record { label = "Username"; prompt = "Username:" }));
      asked_when = always;
    }
    ∷ record {
      path = "system.timezone";
      environment_variable = none;
      question =
          some (
            enter_text
              (record { label = "Timezone"; prompt = "Timezone (e.g. Europe/Helsinki):" }));
      asked_when = always;
    }
    ∷ record {
      path = "system.locale.keymap";
      environment_variable = none;
      question = some (enter_text (record { label = "Keymap"; prompt = "Keymap:" }));
      asked_when = always;
    }
    ∷ record {
      path = "credentials.user_password";
      environment_variable = some "USER_PASSWORD";
      question = some (
          enter_secret (record {
            label = "User password";
            prompt = "User account password:";
            confirm = true;
          }));
      asked_when = always;
    }
    ∷ []

abbrev pub docker_settings : List StepSetting
docker_settings =
    record {
      path = "docker.enabled";
      environment_variable = some "ENABLE_DOCKER";
      question = some (
          switch
            (record { label = "Docker"; on_label = "On"; off_label = "Off"; description = "" }));
      asked_when = always;
    }
    ∷ []

abbrev pub bootable_snapshots_settings : List StepSetting
bootable_snapshots_settings =
    record {
      path = "boot.enable_snapshot_boot";
      environment_variable = some "ENABLE_SNAPSHOT_BOOT";
      question = some (
          switch (record {
            label = "Bootable snapshots";
            on_label = "On";
            off_label = "Off";
            description = "";
          }));
      asked_when = always;
    }
    ∷ []

abbrev pub snapshot_notifications_settings : List StepSetting
snapshot_notifications_settings =
    record {
      path = "notifications.enabled";
      environment_variable = some "ENABLE_NOTIFICATIONS";
      question = some (
          switch (record {
            label = "Desktop notifications";
            on_label = "On";
            off_label = "Off";
            description = "Notify when a snapshot is taken.";
          }));
      asked_when = always;
    }
    ∷ []

abbrev pub firewall_settings : List StepSetting
firewall_settings =
    record {
      path = "firewall.enabled";
      environment_variable = some "ENABLE_FIREWALL";
      question = some (
          switch (record {
            label = "Firewall (UFW)";
            on_label = "On";
            off_label = "Off";
            description = "";
          }));
      asked_when = always;
    }
    ∷ []

abbrev pub usb_backup_settings : List StepSetting
usb_backup_settings =
    record {
      path = "sync.backup_partition";
      environment_variable = some "BACKUP_PARTITION";
      question = none;
      asked_when = always;
    }
    ∷ record {
      path = "sync.backup_categories";
      environment_variable = some "BACKUP_CATEGORIES";
      question = none;
      asked_when = always;
    }
    ∷ []
