-- ===== src/Config/Conformance/Features.antt =====
-- The snapshot, firewall, docker, backup, migration and credential sections have the declared types.
use arch_installer.Prelude.{◌≡◌, refl, true}
use arch_installer.Config.Schema.{text_type, section_type}
use arch_installer.Config.Value.{text}
use arch_installer.Config.Export.{conforms, fields_conform}
use arch_installer.Config.Models.Features.{
  SnapshotRetention, SnapperVolumeConfig, SnapperConfig, NotificationsConfig, FirewallSshConfig,
  FirewallAllowRule, FirewallConfig, DockerConfig, BackupItemConfig, SyncConfig, MigrationConfig,
  EncryptedSecretsConfig, Credentials,
}
use arch_installer.Config.Declared.Members.{backup_category_type}
use arch_installer.Config.Declared.Features.{
  snapshot_retention_section, snapper_volume_config_section, snapper_config_section,
  notifications_config_section, firewall_ssh_config_section, firewall_allow_rule_section,
  firewall_config_section, docker_config_section, backup_item_config_section, sync_config_section,
  migration_config_section, encrypted_secrets_config_section, credentials_section,
}
use arch_installer.Config.AsDict.Members.{backup_category_value}
use arch_installer.Config.AsDict.Features.{
  snapshot_retention_dict, snapper_volume_config_dict, snapper_config_dict,
  notifications_config_dict, firewall_ssh_config_dict, firewall_allow_rule_dict,
  firewall_config_dict, docker_config_dict, backup_item_config_dict, sync_config_dict,
  migration_config_dict, encrypted_secrets_config_dict, credentials_dict,
}
use arch_installer.Config.Conformance.Members.{
  both, items_of-conforms, or_null-conforms, firewall_policy-conforms, backup_category-conforms,
}

pub snapshot_retention_dict-conforms :
    (c : SnapshotRetention)
    → conforms (section_type snapshot_retention_section) (snapshot_retention_dict c) ≡ true
unfolding snapshot_retention_dict conforms fields_conform
snapshot_retention_dict-conforms c = refl

pub snapper_volume_config_dict-conforms :
    (c : SnapperVolumeConfig)
    → conforms (section_type snapper_volume_config_section) (snapper_volume_config_dict c) ≡ true
unfolding snapper_volume_config_dict conforms fields_conform
snapper_volume_config_dict-conforms c = both (snapshot_retention_dict-conforms c.retention) (refl)

pub snapper_config_dict-conforms :
    (c : SnapperConfig)
    → conforms (section_type snapper_config_section) (snapper_config_dict c) ≡ true
unfolding snapper_config_dict conforms fields_conform
snapper_config_dict-conforms c =
    both (items_of-conforms text_type text (λ _. refl) c.allow_groups) (
      both
        (or_null-conforms (section_type snapper_volume_config_section) snapper_volume_config_dict
          snapper_volume_config_dict-conforms c.root)
        (both
          (or_null-conforms (section_type snapper_volume_config_section) snapper_volume_config_dict
            snapper_volume_config_dict-conforms c.home)
          (refl)))

pub notifications_config_dict-conforms :
    (c : NotificationsConfig)
    → conforms (section_type notifications_config_section) (notifications_config_dict c) ≡ true
unfolding notifications_config_dict conforms fields_conform
notifications_config_dict-conforms c = refl

pub firewall_ssh_config_dict-conforms :
    (c : FirewallSshConfig)
    → conforms (section_type firewall_ssh_config_section) (firewall_ssh_config_dict c) ≡ true
unfolding firewall_ssh_config_dict conforms fields_conform
firewall_ssh_config_dict-conforms c = refl

pub firewall_allow_rule_dict-conforms :
    (c : FirewallAllowRule)
    → conforms (section_type firewall_allow_rule_section) (firewall_allow_rule_dict c) ≡ true
unfolding firewall_allow_rule_dict conforms fields_conform
firewall_allow_rule_dict-conforms c = refl

pub firewall_config_dict-conforms :
    (c : FirewallConfig)
    → conforms (section_type firewall_config_section) (firewall_config_dict c) ≡ true
unfolding firewall_config_dict conforms fields_conform
firewall_config_dict-conforms c = both (firewall_policy-conforms c.default_incoming) (
    both (firewall_policy-conforms c.default_outgoing) (
      both (firewall_ssh_config_dict-conforms c.ssh) (
        both
          (items_of-conforms (section_type firewall_allow_rule_section) firewall_allow_rule_dict
            firewall_allow_rule_dict-conforms c.allow_rules)
          (refl))))

pub docker_config_dict-conforms :
    (c : DockerConfig) → conforms (section_type docker_config_section) (docker_config_dict c) ≡ true
unfolding docker_config_dict conforms fields_conform
docker_config_dict-conforms c = refl

pub backup_item_config_dict-conforms :
    (c : BackupItemConfig)
    → conforms (section_type backup_item_config_section) (backup_item_config_dict c) ≡ true
unfolding backup_item_config_dict conforms fields_conform
backup_item_config_dict-conforms c = refl

pub sync_config_dict-conforms :
    (c : SyncConfig) → conforms (section_type sync_config_section) (sync_config_dict c) ≡ true
unfolding sync_config_dict conforms fields_conform
sync_config_dict-conforms c =
    both
      (items_of-conforms (section_type backup_item_config_section) backup_item_config_dict
        backup_item_config_dict-conforms c.backup_items)
      (both
        (items_of-conforms backup_category_type backup_category_value backup_category-conforms
          c.backup_categories)
        (refl))

pub migration_config_dict-conforms :
    (c : MigrationConfig)
    → conforms (section_type migration_config_section) (migration_config_dict c) ≡ true
unfolding migration_config_dict conforms fields_conform
migration_config_dict-conforms c =
    both (items_of-conforms text_type text (λ _. refl) c.additional_paths) (refl)

pub encrypted_secrets_config_dict-conforms :
    (c : EncryptedSecretsConfig)
    → conforms (section_type encrypted_secrets_config_section) (encrypted_secrets_config_dict c)
      ≡ true
unfolding encrypted_secrets_config_dict conforms fields_conform
encrypted_secrets_config_dict-conforms c = refl

pub credentials_dict-conforms :
    (c : Credentials) → conforms (section_type credentials_section) (credentials_dict c) ≡ true
unfolding credentials_dict conforms fields_conform
credentials_dict-conforms c = refl
