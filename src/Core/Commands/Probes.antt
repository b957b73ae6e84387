-- ===== src/Core/Commands/Probes.antt =====
-- The commands that only read the state of the machine.
use arch_installer.Prelude.{String, ◌<>◌, ℕ, show_nat}

pub data Probe : Type 0 where
  mountpoint test_exists test_file test_directory : String → Probe
  luks_uuid partition_uuid disk_links mount_source : String → Probe
  list_device is_luks device_size list_nodes mapper_status blkid : String → Probe
  list_subvolumes cat device_type removable mountpoints : String → Probe
  map_swapfile filefrag fstab_entries : String → Probe
  test_passphrase : String → String → Probe
  compare_devices : String → String → Probe
  read_image : String → ℕ → ℕ → String → Probe
  list_image : String → String → Probe
  show_subvolume filesystem_uuid device_names disk_usage free_space list_entries : String → Probe
  installed_packages current_date host_name list_disks : Probe
  disk_model : String → Probe

unfoldable pub probe_text : Probe → String
probe_text (Probe.mountpoint p) = "mountpoint -q " <> p
probe_text (Probe.test_exists p) = "test -e " <> p
probe_text (Probe.test_file p) = "test -f " <> p
probe_text (Probe.test_directory p) = "test -d " <> p
probe_text (Probe.luks_uuid d) = "cryptsetup luksUUID " <> d
probe_text (Probe.partition_uuid p) = "blkid -s PARTUUID -o value " <> p
probe_text (Probe.disk_links d) =
    "target=$(readlink -f " <> d <> "); for link in /dev/disk/by-id/*; do "
    <> "[ \"$(readlink -f \"$link\")\" = \"$target\" ] && echo \"$link\"; done"
probe_text (Probe.mount_source p) = "findmnt -n -o SOURCE " <> p
probe_text (Probe.list_device d) = "lsblk " <> d
probe_text (Probe.is_luks d) = "cryptsetup isLuks " <> d
probe_text (Probe.device_size d) = "blockdev --getsize64 " <> d
probe_text (Probe.list_nodes d) = "lsblk -r -n -o NAME,MAJ:MIN,TYPE " <> d
probe_text (Probe.mapper_status name) = "cryptsetup status " <> name
probe_text (Probe.blkid d) = "blkid " <> d
probe_text (Probe.list_subvolumes p) = "btrfs subvolume list " <> p
probe_text (Probe.cat p) = "cat " <> p
probe_text (Probe.device_type d) = "lsblk -dno TYPE " <> d
probe_text (Probe.removable name) = "cat /sys/block/" <> name <> "/removable"
probe_text (Probe.mountpoints d) = "lsblk -nro MOUNTPOINT " <> d
probe_text (Probe.map_swapfile p) = "btrfs inspect-internal map-swapfile -r " <> p
probe_text (Probe.filefrag p) = "filefrag -v " <> p
probe_text (Probe.fstab_entries p) = "grep -q '^[^#]' " <> p
probe_text (Probe.test_passphrase header d) = "cryptsetup open --test-passphrase " <> header <> d
probe_text (Probe.compare_devices a b) = "cmp " <> a <> " " <> b
probe_text (Probe.read_image source offset count format) =
    "dd if="
    <> source
    <> " bs=4096 skip="
    <> show_nat offset
    <> " count="
    <> show_nat count
    <> " iflag=skip_bytes,count_bytes status=none | "
    <> format
probe_text (Probe.list_image source members) = "bsdtar -tf " <> source <> " " <> members
probe_text (Probe.show_subvolume p) = "btrfs subvolume show " <> p
probe_text (Probe.filesystem_uuid d) = "blkid -s UUID -o value " <> d
probe_text (Probe.device_names d) = "lsblk -ln -o NAME " <> d
probe_text (Probe.disk_usage p) = "du -sm " <> p
probe_text (Probe.free_space p) = "df --output=avail -m " <> p
probe_text (Probe.list_entries p) = "ls -A " <> p
probe_text Probe.installed_packages = "pacman -Qqe"
probe_text Probe.current_date = "date -Iseconds"
probe_text Probe.host_name = "hostname"
probe_text Probe.list_disks = "lsblk -dno NAME,TYPE"
probe_text (Probe.disk_model d) = "lsblk -dno MODEL,SIZE " <> d
