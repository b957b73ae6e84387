-- ===== src/Core/Commands/Chroot.antt =====
-- The commands run inside the target by `run_as_chroot`.
use arch_installer.Prelude.{String, ◌<>◌, List, join, ℤ, show_int}

pub data ChrootCommand : Type 0 where
  query_package install_package : String → ChrootCommand
  upgrade_packages : List String → ChrootCommand
  enable_unit mask_unit : String → ChrootCommand
  -- direction, then policy
  default_policy : String → String → ChrootCommand
  firewall_logging : ChrootCommand
  allow : String → ChrootCommand
  allow_from : String → ℤ → ChrootCommand
  find_group add_group find_user user_groups : String → ChrootCommand
  -- group, then user
  join_group : String → String → ChrootCommand
  add_user : String → String → ChrootCommand
  set_passwords store_clock generate_locales : ChrootCommand
  secure_boot_status create_keys read_setup_mode build_images : ChrootCommand
  -- the options as text
  enroll_keys : String → ChrootCommand
  sign install_bootloader : String → ChrootCommand
  change_owner : String → String → ChrootCommand
  -- kernel, initial images, command line and output, as one text
  build_uki : String → ChrootCommand

unfoldable pub chroot_text : ChrootCommand → String
chroot_text (query_package p) = "pacman -Q " <> p
chroot_text (install_package p) = "pacman -S --noconfirm " <> p
chroot_text (upgrade_packages ps) = "pacman -Syu --noconfirm --needed " <> join " " ps
chroot_text (enable_unit u) = "systemctl enable " <> u
chroot_text (mask_unit u) = "systemctl mask " <> u
chroot_text (default_policy direction policy) = "ufw default " <> policy <> " " <> direction
chroot_text firewall_logging = "ufw logging on"
chroot_text (allow rule) = "ufw allow " <> rule
chroot_text (allow_from source port) =
    "ufw allow from " <> source <> " to any port " <> show_int port <> " proto tcp"
chroot_text (find_group g) = "getent group " <> g
chroot_text (add_group g) = "groupadd " <> g
chroot_text (find_user u) = "id " <> u
chroot_text (user_groups u) = "id -nG " <> u
chroot_text (join_group g u) = "usermod -aG " <> g <> " " <> u
chroot_text (add_user groups u) = "useradd -m -G " <> groups <> " -s /bin/bash " <> u
chroot_text set_passwords = "chpasswd"
chroot_text store_clock = "hwclock --systohc"
chroot_text generate_locales = "locale-gen"
chroot_text secure_boot_status = "sbctl status"
chroot_text create_keys = "sbctl create-keys"
chroot_text read_setup_mode =
    "cat /sys/firmware/efi/efivars/SetupMode-* 2>/dev/null | xxd -p | tail -c 3"
chroot_text build_images = "mkinitcpio -P"
chroot_text (enroll_keys options) = "sbctl enroll-keys" <> options
chroot_text (sign p) = "sbctl sign -s " <> p
chroot_text (install_bootloader options) = "bootctl install --esp-path=/efi" <> options
chroot_text (change_owner owner p) = "chown " <> owner <> " " <> p
chroot_text (build_uki arguments) = "ukify build " <> arguments
