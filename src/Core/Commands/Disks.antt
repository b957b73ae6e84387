-- ===== src/Core/Commands/Disks.antt =====
-- The commands that change disks, volumes and mounts.
use arch_installer.Prelude.{String, ◌<>◌, Option, none, some, List, [], ◌∷◌, ℕ, show_nat}

pub data DiskCommand : Type 0 where
  wipefs zap_partition_table shred random_fill discard : String → DiskCommand
  flush_buffers reread_table partprobe grow_loop_device : String → DiskCommand
  settle sync swapoff_all remove_all_mappings : DiskCommand
  -- number, size (empty for the rest of the disk), type code, disk
  new_partition : ℕ → String → String → String → DiskCommand
  make_node : String → String → String → DiskCommand
  replicate_table : String → String → DiskCommand
  move_backup_table : String → DiskCommand
  copy_device : String → String → DiskCommand
  -- the options as text, the device of a detached header, and the device
  luks_format : String → Option String → String → DiskCommand
  -- the device of a detached header, the device and the mapper name
  luks_open : Option String → String → String → DiskCommand
  luks_close : String → DiskCommand
  -- label or further options, then the device
  make_btrfs make_ext4 : String → String → DiskCommand
  make_vfat : String → DiskCommand
  create_subvolume : String → DiskCommand
  -- type and options as text, device, mount point
  mount : String → String → String → DiskCommand
  mount_plain : String → String → DiskCommand
  unmount unmount_tree : String → DiskCommand

unfoldable pub header_option : Option String → String
header_option none = ""
header_option (some header) = "--header " <> header <> " "

-- the ciphertext starts at the first byte of the disk, if the header is detached
unfoldable pub offset_option : Option String → String
unfolding header_option
offset_option none = ""
offset_option (some header) = header_option (some header) <> "--offset 0 "

unfoldable pub disk_text : DiskCommand → String
unfolding offset_option
disk_text (wipefs d) = "wipefs -af " <> d
disk_text (zap_partition_table d) = "sgdisk -Z " <> d
disk_text (shred d) = "shred -v -n 1 " <> d
disk_text (random_fill d) = "dd bs=4M if=/dev/urandom of=" <> d <> " conv=fsync status=progress"
disk_text (discard d) = "blkdiscard -f " <> d
disk_text (flush_buffers d) = "blockdev --flushbufs " <> d
disk_text (reread_table d) = "blockdev --rereadpt " <> d
disk_text (partprobe d) = "partprobe " <> d
disk_text (grow_loop_device d) = "losetup -c " <> d
disk_text settle = "udevadm settle"
disk_text sync = "sync"
disk_text swapoff_all = "swapoff -a"
disk_text remove_all_mappings = "dmsetup remove_all"
disk_text (new_partition n size code d) =
    "sgdisk -n" <> show_nat n <> ":0:" <> size <> " -t" <> show_nat n <> ":" <> code <> " " <> d
disk_text (make_node node major minor) = "mknod " <> node <> " b " <> major <> " " <> minor
disk_text (replicate_table spare d) = "sgdisk --replicate=" <> spare <> " " <> d
disk_text (move_backup_table d) = "sgdisk -e " <> d
disk_text (copy_device from to) =
    "dd if=" <> from <> " of=" <> to <> " bs=4M conv=fsync status=none"
disk_text (luks_format options header d) =
    "cryptsetup luksFormat --batch-mode " <> options <> offset_option header <> "--key-file - " <> d
disk_text (luks_open header d name) =
    "cryptsetup open " <> header_option header <> "--key-file - " <> d <> " " <> name
disk_text (luks_close name) = "cryptsetup close " <> name
disk_text (make_btrfs label d) = "mkfs.btrfs -f -L \"" <> label <> "\" " <> d
disk_text (make_ext4 options d) = "mkfs.ext4 " <> options <> " " <> d
disk_text (make_vfat d) = "mkfs.vfat -F32 -n EFI " <> d
disk_text (create_subvolume p) = "btrfs subvolume create " <> p
disk_text (mount options d p) = "mount -t " <> options <> " " <> d <> " " <> p
disk_text (mount_plain d p) = "mount " <> d <> " " <> p
disk_text (unmount p) = "umount " <> p
disk_text (unmount_tree p) = "umount -R " <> p

abbrev pub header_devices : Option String → List String
header_devices none = []
header_devices (some header) = header ∷ []

-- The devices (or the mapped volume) whose old contents are lost; a detached header is written too.
abbrev pub overwritten_devices : DiskCommand → List String
overwritten_devices (wipefs d) = d ∷ []
overwritten_devices (zap_partition_table d) = d ∷ []
overwritten_devices (shred d) = d ∷ []
overwritten_devices (random_fill d) = d ∷ []
overwritten_devices (discard d) = d ∷ []
overwritten_devices (new_partition n size code d) = d ∷ []
overwritten_devices (replicate_table spare d) = spare ∷ []
overwritten_devices (move_backup_table d) = d ∷ []
overwritten_devices (copy_device from to) = to ∷ []
overwritten_devices (luks_format options header d) = d ∷ header_devices header
overwritten_devices (make_btrfs label d) = d ∷ []
overwritten_devices (make_ext4 options d) = d ∷ []
overwritten_devices (make_vfat d) = d ∷ []
overwritten_devices _ = []
