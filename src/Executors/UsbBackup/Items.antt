-- ===== src/Executors/UsbBackup/Items.antt =====
-- executors/usb_backup.py: what each category of a backup holds.
use arch_installer.Prelude.{List, [], ◌∷◌}
use arch_installer.Config.Models.Enums.{BackupCategory}
use arch_installer.Config.Models.Features.{BackupItemConfig}

abbrev pub backup_items : BackupCategory → List BackupItemConfig
backup_items BackupCategory.dotfiles =
    record { name = "zshrc"; source_path = "~/.zshrc"; description = "ZSH config" }
    ∷ record { name = "zshenv"; source_path = "~/.zshenv"; description = "ZSH environment" }
    ∷ record { name = "bashrc"; source_path = "~/.bashrc"; description = "Bash config" }
    ∷ record { name = "gitconfig"; source_path = "~/.gitconfig"; description = "Git config" }
    ∷ record {
      name = "gitignore";
      source_path = "~/.gitignore_global";
      description = "Git global ignore";
    }
    ∷ record {
      name = "kitty";
      source_path = "~/.config/kitty";
      description = "Kitty terminal config";
    }
    ∷ record {
      name = "alacritty";
      source_path = "~/.config/alacritty";
      description = "Alacritty config";
    }
    ∷ record { name = "nvim"; source_path = "~/.config/nvim"; description = "Neovim config" }
    ∷ record {
      name = "vscode_settings";
      source_path = "~/.config/Code/User/settings.json";
      description = "VS Code settings";
    }
    ∷ record {
      name = "vscode_keybindings";
      source_path = "~/.config/Code/User/keybindings.json";
      description = "VS Code keybindings";
    }
    ∷ record {
      name = "starship";
      source_path = "~/.config/starship.toml";
      description = "Starship prompt config";
    }
    ∷ record { name = "tmux"; source_path = "~/.tmux.conf"; description = "Tmux config" }
    ∷ record { name = "hypr"; source_path = "~/.config/hypr"; description = "Hyprland config" }
    ∷ record { name = "waybar"; source_path = "~/.config/waybar"; description = "Waybar config" }
    ∷ record { name = "rofi"; source_path = "~/.config/rofi"; description = "Rofi config" }
    ∷ record {
      name = "dunst";
      source_path = "~/.config/dunst";
      description = "Dunst notification config";
    }
    ∷ []
backup_items BackupCategory.keepass =
    record {
      name = "keepassxc_db";
      source_path = "~/Documents/Passwords.kdbx";
      description = "KeePassXC database";
    }
    ∷ record {
      name = "keepassxc_config";
      source_path = "~/.config/keepassxc";
      description = "KeePassXC config";
    }
    ∷ []
backup_items BackupCategory.browser =
    record {
      name = "firefox_profile";
      source_path = "~/.mozilla/firefox";
      description = "Firefox profile";
    }
    ∷ record {
      name = "chromium_profile";
      source_path = "~/.config/chromium";
      description = "Chromium profile";
    }
    ∷ []
backup_items BackupCategory.system =
    record { name = "pacman_conf"; source_path = "/etc/pacman.conf"; description = "Pacman config" }
    ∷ record {
      name = "makepkg_conf";
      source_path = "/etc/makepkg.conf";
      description = "Makepkg config";
    }
    ∷ record {
      name = "mkinitcpio_conf";
      source_path = "/etc/mkinitcpio.conf";
      description = "Mkinitcpio config";
    }
    ∷ []
