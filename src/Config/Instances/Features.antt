-- ===== src/Config/Instances/Features.antt =====
-- The values of the snapshot, firewall, docker, backup, migration and credential sections.
use arch_installer.Prelude.{refl}
use arch_installer.Config.Schema.{section_type}
use arch_installer.Config.Declared.Features.{
  snapshot_retention_section, snapper_volume_config_section, snapper_config_section,
  notifications_config_section, firewall_ssh_config_section, firewall_allow_rule_section,
  firewall_config_section, docker_config_section, backup_item_config_section, sync_config_section,
  migration_config_section, encrypted_secrets_config_section, credentials_section,
}
use arch_installer.Config.AsDict.Features.{
  snapshot_retention_dict, snapper_volume_config_dict, snapper_config_dict,
  notifications_config_dict, firewall_ssh_config_dict, firewall_allow_rule_dict,
  firewall_config_dict, docker_config_dict, backup_item_config_dict, sync_config_dict,
  migration_config_dict, encrypted_secrets_config_dict, credentials_dict,
}
use arch_installer.Config.Instances.Members.{
  Covers, text-Covers, int-Covers, bool-Covers, ◌&◌, done-Covers, section-Covers, tuple-Covers,
  or_null-Covers, firewall_policy_value-Covers, backup_category_value-Covers,
}

pub snapshot_retention_dict-Covers :
    Covers (section_type snapshot_retention_section) snapshot_retention_dict
unfolding snapshot_retention_dict
snapshot_retention_dict-Covers =
    section-Covers (int-Covers & int-Covers & int-Covers & int-Covers & int-Covers & done-Covers)
      (λ p. record {
        hourly = p.first;
        daily = p.rest.first;
        weekly = p.rest.rest.first;
        monthly = p.rest.rest.rest.first;
        yearly = p.rest.rest.rest.rest.first;
      })
      λ p. refl

pub snapper_volume_config_dict-Covers :
    Covers (section_type snapper_volume_config_section) snapper_volume_config_dict
unfolding snapper_volume_config_dict
snapper_volume_config_dict-Covers =
    section-Covers
      (text-Covers & text-Covers & text-Covers & bool-Covers & bool-Covers & int-Covers & int-Covers
        & snapshot_retention_dict-Covers & done-Covers)
      (λ p. record {
        subvolume = p.first;
        snapshots_subvolume = p.rest.first;
        snapshots_path = p.rest.rest.first;
        timeline = p.rest.rest.rest.first;
        cleanup = p.rest.rest.rest.rest.first;
        number_limit = p.rest.rest.rest.rest.rest.first;
        number_limit_important = p.rest.rest.rest.rest.rest.rest.first;
        retention = p.rest.rest.rest.rest.rest.rest.rest.first;
      })
      λ p. refl

pub snapper_config_dict-Covers : Covers (section_type snapper_config_section) snapper_config_dict
unfolding snapper_config_dict
snapper_config_dict-Covers =
    section-Covers
      (bool-Covers
        & (tuple-Covers text-Covers)
        & (or_null-Covers snapper_volume_config_dict-Covers)
        & (or_null-Covers snapper_volume_config_dict-Covers)
        & bool-Covers
        & int-Covers
        & done-Covers)
      (λ p. record {
        enabled = p.first;
        allow_groups = p.rest.first;
        root = p.rest.rest.first;
        home = p.rest.rest.rest.first;
        snap_pac = p.rest.rest.rest.rest.first;
        bootable_snapshot_count = p.rest.rest.rest.rest.rest.first;
      })
      λ p. refl

pub notifications_config_dict-Covers :
    Covers (section_type notifications_config_section) notifications_config_dict
unfolding notifications_config_dict
notifications_config_dict-Covers =
    section-Covers (bool-Covers & done-Covers) (λ p. record { enabled = p.first }) λ p. refl

pub firewall_ssh_config_dict-Covers :
    Covers (section_type firewall_ssh_config_section) firewall_ssh_config_dict
unfolding firewall_ssh_config_dict
firewall_ssh_config_dict-Covers =
    section-Covers (bool-Covers & int-Covers & text-Covers & done-Covers)
      (λ p. record { enabled = p.first; port = p.rest.first; allowed_from = p.rest.rest.first })
      λ p. refl

pub firewall_allow_rule_dict-Covers :
    Covers (section_type firewall_allow_rule_section) firewall_allow_rule_dict
unfolding firewall_allow_rule_dict
firewall_allow_rule_dict-Covers =
    section-Covers (int-Covers & text-Covers & done-Covers)
      (λ p. record { port = p.first; protocol = p.rest.first }) λ p. refl

pub firewall_config_dict-Covers : Covers (section_type firewall_config_section) firewall_config_dict
unfolding firewall_config_dict
firewall_config_dict-Covers =
    section-Covers
      (bool-Covers
        & firewall_policy_value-Covers
        & firewall_policy_value-Covers
        & bool-Covers
        & bool-Covers
        & firewall_ssh_config_dict-Covers
        & (tuple-Covers firewall_allow_rule_dict-Covers)
        & done-Covers)
      (λ p. record {
        enabled = p.first;
        default_incoming = p.rest.first;
        default_outgoing = p.rest.rest.first;
        logging = p.rest.rest.rest.first;
        block_icmp = p.rest.rest.rest.rest.first;
        ssh = p.rest.rest.rest.rest.rest.first;
        allow_rules = p.rest.rest.rest.rest.rest.rest.first;
      })
      λ p. refl

pub docker_config_dict-Covers : Covers (section_type docker_config_section) docker_config_dict
unfolding docker_config_dict
docker_config_dict-Covers =
    section-Covers (bool-Covers & text-Covers & text-Covers & text-Covers & done-Covers)
      (λ p. record {
        enabled = p.first;
        storage_driver = p.rest.first;
        data_root = p.rest.rest.first;
        access_group = p.rest.rest.rest.first;
      })
      λ p. refl

pub backup_item_config_dict-Covers :
    Covers (section_type backup_item_config_section) backup_item_config_dict
unfolding backup_item_config_dict
backup_item_config_dict-Covers =
    section-Covers (text-Covers & text-Covers & text-Covers & done-Covers)
      (λ p. record { name = p.first; source_path = p.rest.first; description = p.rest.rest.first })
      λ p. refl

pub sync_config_dict-Covers : Covers (section_type sync_config_section) sync_config_dict
unfolding sync_config_dict
sync_config_dict-Covers =
    section-Covers
      (text-Covers
        & (tuple-Covers backup_item_config_dict-Covers)
        & (tuple-Covers backup_category_value-Covers)
        & done-Covers)
      (λ p. record {
        backup_partition = p.first;
        backup_items = p.rest.first;
        backup_categories = p.rest.rest.first;
      })
      λ p. refl

pub migration_config_dict-Covers :
    Covers (section_type migration_config_section) migration_config_dict
unfolding migration_config_dict
migration_config_dict-Covers =
    section-Covers
      (bool-Covers & bool-Covers & bool-Covers & (tuple-Covers text-Covers) & done-Covers)
      (λ p. record {
        enabled = p.first;
        preserve_home = p.rest.first;
        preserve_secure_boot_keys = p.rest.rest.first;
        additional_paths = p.rest.rest.rest.first;
      })
      λ p. refl

pub encrypted_secrets_config_dict-Covers :
    Covers (section_type encrypted_secrets_config_section) encrypted_secrets_config_dict
unfolding encrypted_secrets_config_dict
encrypted_secrets_config_dict-Covers =
    section-Covers (text-Covers & text-Covers & done-Covers)
      (λ p. record { luks_password_encrypted = p.first; user_password_encrypted = p.rest.first })
      λ p. refl

pub credentials_dict-Covers : Covers (section_type credentials_section) credentials_dict
unfolding credentials_dict
credentials_dict-Covers =
    section-Covers (text-Covers & text-Covers & text-Covers & done-Covers)
      (λ p. record {
        luks_password = p.first;
        user_password = p.rest.first;
        source_luks_password = p.rest.rest.first;
      })
      λ p. refl
