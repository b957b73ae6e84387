-- ===== src/Config/AsDict/Features.antt =====
-- models.py: `asdict` of the snapshot, firewall, docker, backup, migration and credential sections.
use arch_installer.Config.Value.{Value, bool, int, text, tuple, dict, end, field}
use arch_installer.Config.Models.Features.{
  SnapshotRetention, SnapperVolumeConfig, SnapperConfig, NotificationsConfig, FirewallSshConfig,
  FirewallAllowRule, FirewallConfig, DockerConfig, BackupItemConfig, SyncConfig, MigrationConfig,
  EncryptedSecretsConfig, Credentials,
}
use arch_installer.Config.AsDict.Members.{
  items_of, or_null, firewall_policy_value, backup_category_value,
}

unfoldable pub snapshot_retention_dict : SnapshotRetention → Value
snapshot_retention_dict c = dict (
    field "hourly" (int c.hourly) (
      field "daily" (int c.daily) (
        field "weekly" (int c.weekly)
          (field "monthly" (int c.monthly) (field "yearly" (int c.yearly) (end))))))

unfoldable pub snapper_volume_config_dict : SnapperVolumeConfig → Value
unfolding snapshot_retention_dict
snapper_volume_config_dict c = dict (
    field "subvolume" (text c.subvolume) (
      field "snapshots_subvolume" (text c.snapshots_subvolume) (
        field "snapshots_path" (text c.snapshots_path) (
          field "timeline" (bool c.timeline) (
            field "cleanup" (bool c.cleanup) (
              field "number_limit" (int c.number_limit) (
                field "number_limit_important" (int c.number_limit_important)
                  (field "retention" (snapshot_retention_dict c.retention) (end)))))))))

unfoldable pub snapper_config_dict : SnapperConfig → Value
unfolding items_of or_null snapper_volume_config_dict
snapper_config_dict c = dict (
    field "enabled" (bool c.enabled) (
      field "allow_groups" (tuple (items_of text c.allow_groups)) (
        field "root" (or_null snapper_volume_config_dict c.root) (
          field "home" (or_null snapper_volume_config_dict c.home) (
            field "snap_pac" (bool c.snap_pac)
              (field "bootable_snapshot_count" (int c.bootable_snapshot_count) (end)))))))

unfoldable pub notifications_config_dict : NotificationsConfig → Value
notifications_config_dict c = dict (field "enabled" (bool c.enabled) (end))

unfoldable pub firewall_ssh_config_dict : FirewallSshConfig → Value
firewall_ssh_config_dict c = dict (
    field "enabled" (bool c.enabled)
      (field "port" (int c.port) (field "allowed_from" (text c.allowed_from) (end))))

unfoldable pub firewall_allow_rule_dict : FirewallAllowRule → Value
firewall_allow_rule_dict c =
    dict (field "port" (int c.port) (field "protocol" (text c.protocol) (end)))

unfoldable pub firewall_config_dict : FirewallConfig → Value
unfolding firewall_allow_rule_dict firewall_ssh_config_dict items_of
firewall_config_dict c = dict (
    field "enabled" (bool c.enabled) (
      field "default_incoming" (firewall_policy_value c.default_incoming) (
        field "default_outgoing" (firewall_policy_value c.default_outgoing) (
          field "logging" (bool c.logging) (
            field "block_icmp" (bool c.block_icmp) (
              field "ssh" (firewall_ssh_config_dict c.ssh) (
                field "allow_rules" (tuple (items_of firewall_allow_rule_dict c.allow_rules))
                  (end))))))))

unfoldable pub docker_config_dict : DockerConfig → Value
docker_config_dict c = dict (
    field "enabled" (bool c.enabled) (
      field "storage_driver" (text c.storage_driver)
        (field "data_root" (text c.data_root) (field "access_group" (text c.access_group) (end)))))

unfoldable pub backup_item_config_dict : BackupItemConfig → Value
backup_item_config_dict c = dict (
    field "name" (text c.name)
      (field "source_path" (text c.source_path) (field "description" (text c.description) (end))))

unfoldable pub sync_config_dict : SyncConfig → Value
unfolding backup_item_config_dict items_of
sync_config_dict c = dict (
    field "backup_partition" (text c.backup_partition) (
      field "backup_items" (tuple (items_of backup_item_config_dict c.backup_items)) (
        field "backup_categories" (tuple (items_of backup_category_value c.backup_categories))
          (end))))

unfoldable pub migration_config_dict : MigrationConfig → Value
unfolding items_of
migration_config_dict c = dict (
    field "enabled" (bool c.enabled) (
      field "preserve_home" (bool c.preserve_home) (
        field "preserve_secure_boot_keys" (bool c.preserve_secure_boot_keys)
          (field "additional_paths" (tuple (items_of text c.additional_paths)) (end)))))

unfoldable pub encrypted_secrets_config_dict : EncryptedSecretsConfig → Value
encrypted_secrets_config_dict c = dict (
    field "luks_password_encrypted" (text c.luks_password_encrypted)
      (field "user_password_encrypted" (text c.user_password_encrypted) (end)))

unfoldable pub credentials_dict : Credentials → Value
credentials_dict c = dict (
    field "luks_password" (text c.luks_password) (
      field "user_password" (text c.user_password)
        (field "source_luks_password" (text c.source_luks_password) (end))))
