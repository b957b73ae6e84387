-- ===== src/Tests/Fixtures.antt =====
-- A configuration and machines that the tests run on.
use arch_installer.Prelude.{true, false, none, [], ◌∷◌, pos}
use arch_installer.Errors.{status}
use arch_installer.Core.Exec.{Machine, completed}
use arch_installer.Config.Models.Enums
use arch_installer.Config.Models.System.{SystemConfig, PackagesConfig}
use arch_installer.Config.Models.Storage.{StorageConfig}
use arch_installer.Config.Models.Boot.{BootConfig}
use arch_installer.Config.Models.{InstallerConfig}

abbrev pub sample_system : SystemConfig
sample_system = record {
  hostname = "dali";
  timezone = "Europe/Helsinki";
  locale = record {
    language = "en_US";
    encoding = "UTF-8";
    keymap = "fi";
    monetary = "fi_FI.UTF-8";
    time_format = "";
    numeric = "en_US.UTF-8";
    paper = "fi_FI.UTF-8";
  };
  user = record { name = "ada"; groups = "wheel" ∷ [] };
  mirrors = record { mirrors = []; use_reflector = true; reflector_countries = "FI" ∷ [] };
  cpu_vendor = Enums.CpuVendor.amd;
}

abbrev pub sample_packages : PackagesConfig
sample_packages = record {
  base = "base" ∷ "linux" ∷ "linux-lts" ∷ "amd-ucode" ∷ "intel-ucode" ∷ [];
  desktops = record { kde = "plasma" ∷ []; gnome = "gnome" ∷ []; hyprland = [] };
  selected_desktops = Enums.Desktop.kde ∷ [];
  display_manager = "sddm" ∷ [];
  cataloged = "git" ∷ "linux-lts-headers" ∷ [];
}

abbrev pub sample_storage : StorageConfig
sample_storage = record {
  target_disk = "/dev/vda";
  efi_size_mb = pos 512;
  wipe_method = Enums.WipeMethod.skip;
  luks = record {
    type = "luks2";
    cipher = "aes-xts-plain64";
    key_size = pos 512;
    hash = "sha512";
    pbkdf = "argon2id";
    pbkdf_memory = pos 1048576;
    pbkdf_parallel = pos 4;
    pbkdf_time_ms = pos 2000;
  };
  btrfs = record {
    label = "arch";
    mount_options = "noatime";
    subvolumes =
        record { name = "@"; mountpoint = "/"; nocow = false }
        ∷ record { name = "@home"; mountpoint = "/home"; nocow = false }
        ∷ [];
  };
  swap = record { enabled = true; size_mb = pos 4096; path = "/swap/swapfile"; hibernation = true };
}

abbrev pub sample_boot : BootConfig
sample_boot = record {
  kernels =
      record { name = "Linux"; package_name = "linux" }
      ∷ record { name = "LTS"; package_name = "linux-lts" }
      ∷ [];
  selected_kernels = "linux" ∷ [];
  variants = record { suffix = "debug"; params = "debug" } ∷ [];
  cmdline = record {
    rootflags = "subvol=@";
    rootfstype = "btrfs";
    read_write = true;
    quiet = true;
    hardening = record {
      lockdown = "integrity";
      iommu = "";
      intel_iommu = "";
      amd_iommu = "";
      pti = "on";
      spectre_v2 = "";
      spec_store_bypass_disable = "";
      l1tf = "";
      mds = "";
      srbds = "";
      tsx_async_abort = "";
      init_on_alloc = pos 1;
      init_on_free = pos 0;
    };
  };
  loader = record { timeout = pos 3; console_mode = "max"; editor = false };
  hooks = "base" ∷ "systemd" ∷ [];
  secure_boot = record { enroll_keys = true; include_microsoft_keys = true };
  enable_snapshot_boot = true;
}

abbrev pub sample_config : InstallerConfig
sample_config = record {
  system = sample_system;
  packages = sample_packages;
  storage = sample_storage;
  boot = sample_boot;
  gpu = record {
    vendor = Enums.GpuVendor.nvidia;
    driver = Enums.GpuDriver.nvidia_open;
    drivers = record {
      amd = [];
      intel = [];
      nouveau = [];
      nvidia_dkms = "nvidia-dkms" ∷ [];
      nvidia_open = "nvidia-open" ∷ [];
    };
  };
  snapper = record {
    enabled = true;
    allow_groups = [];
    root = none;
    home = none;
    snap_pac = true;
    bootable_snapshot_count = pos 3;
  };
  firewall = record {
    enabled = true;
    default_incoming = Enums.FirewallPolicy.deny;
    default_outgoing = Enums.FirewallPolicy.allow;
    logging = true;
    block_icmp = true;
    ssh = record { enabled = true; port = pos 22; allowed_from = "" };
    allow_rules = record { port = pos 80; protocol = "tcp" } ∷ [];
  };
  docker = record {
    enabled = true;
    storage_driver = "btrfs";
    data_root = "/var/lib/docker";
    access_group = "dockerers";
  };
  notifications = record { enabled = true };
  sync = record { backup_partition = ""; backup_items = []; backup_categories = [] };
  migration = record {
    enabled = false;
    preserve_home = true;
    preserve_secure_boot_keys = true;
    additional_paths = [];
  };
  usb_boot = record {
    enabled = false;
    device = "/dev/sdb";
    recovery_system = false;
    iso_path = "";
  };
  secrets = record { luks_password_encrypted = ""; user_password_encrypted = "" };
  credentials = record {
    luks_password = "secret";
    user_password = "hunter2";
    source_luks_password = "";
  };
}

-- the same, with the data of an old install to migrate
abbrev pub migrating_config : InstallerConfig
migrating_config = record {
  system = sample_config.system;
  packages = sample_config.packages;
  storage = sample_config.storage;
  boot = sample_config.boot;
  gpu = sample_config.gpu;
  snapper = sample_config.snapper;
  firewall = sample_config.firewall;
  docker = sample_config.docker;
  notifications = sample_config.notifications;
  sync = sample_config.sync;
  migration = record {
    enabled = true;
    preserve_home = true;
    preserve_secure_boot_keys = true;
    additional_paths = "/etc/ssh" ∷ [];
  };
  usb_boot = sample_config.usb_boot;
  secrets = sample_config.secrets;
  credentials = sample_config.credentials;
}

-- Every command succeeds and prints nothing.
abbrev pub quiet : Machine
quiet tr i = completed (status 0) "" ""

-- Every command succeeds and prints the types of both file systems.
abbrev pub installed : Machine
installed tr i = completed (status 0) "TYPE=\"btrfs\" TYPE=\"vfat\"" ""
