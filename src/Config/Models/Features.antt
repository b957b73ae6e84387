-- ===== src/Config/Models/Features.antt =====
-- models.py: the snapshot, firewall, docker, backup, migration and credential sections.
use arch_installer.Prelude.{
  String, Bool, List, [], ◌∷◌, ◌++◌, Option, none, some, ℤ, ◌||◌, ◌==◌, not,
}
use arch_installer.Config.Models.Enums.{FirewallPolicy, BackupCategory}

pub record SnapshotRetention : Type 0 where
  pub hourly : ℤ
  pub daily : ℤ
  pub weekly : ℤ
  pub monthly : ℤ
  pub yearly : ℤ

pub record SnapperVolumeConfig : Type 0 where
  pub subvolume : String
  pub snapshots_subvolume : String
  pub snapshots_path : String
  pub timeline : Bool
  pub cleanup : Bool
  pub number_limit : ℤ
  pub number_limit_important : ℤ
  pub retention : SnapshotRetention

pub record SnapperConfig : Type 0 where
  pub enabled : Bool
  pub allow_groups : List String
  pub root : Option SnapperVolumeConfig
  pub home : Option SnapperVolumeConfig
  pub snap_pac : Bool
  pub bootable_snapshot_count : ℤ

unfoldable named : String → Option SnapperVolumeConfig → List (String × SnapperVolumeConfig)
named name none = []
named name (some volume) = (name, volume) ∷ []

unfoldable pub volumes : SnapperConfig → List (String × SnapperVolumeConfig)
unfolding named
volumes c = named "root" c.root ++ named "home" c.home

pub record NotificationsConfig : Type 0 where
  pub enabled : Bool

pub record FirewallSshConfig : Type 0 where
  pub enabled : Bool
  pub port : ℤ
  pub allowed_from : String

pub record FirewallAllowRule : Type 0 where
  pub port : ℤ
  pub protocol : String

pub record FirewallConfig : Type 0 where
  pub enabled : Bool
  pub default_incoming : FirewallPolicy
  pub default_outgoing : FirewallPolicy
  pub logging : Bool
  pub block_icmp : Bool
  pub ssh : FirewallSshConfig
  pub allow_rules : List FirewallAllowRule

pub record DockerConfig : Type 0 where
  pub enabled : Bool
  pub storage_driver : String
  pub data_root : String
  pub access_group : String

pub record BackupItemConfig : Type 0 where
  pub name : String
  pub source_path : String
  pub description : String

pub record SyncConfig : Type 0 where
  pub backup_partition : String
  pub backup_items : List BackupItemConfig
  pub backup_categories : List BackupCategory

pub record MigrationConfig : Type 0 where
  pub enabled : Bool
  pub preserve_home : Bool
  pub preserve_secure_boot_keys : Bool
  pub additional_paths : List String

pub record EncryptedSecretsConfig : Type 0 where
  pub luks_password_encrypted : String
  pub user_password_encrypted : String

unfoldable pub configured : EncryptedSecretsConfig → Bool
configured s = not (s.luks_password_encrypted == "") || not (s.user_password_encrypted == "")

pub record Credentials : Type 0 where
  pub luks_password : String
  pub user_password : String
  pub source_luks_password : String
