-- ===== src/Config/Declared/Features.antt =====
-- models.py: the fields of the snapshot, firewall, docker, backup, migration and credential sections, with their types.
use arch_installer.Config.Schema.{
  text_type, int_type, bool_type, tuple_type, optional_type, section_type, Section, done, declare,
}
use arch_installer.Config.Declared.Members.{firewall_policy_type, backup_category_type}

abbrev pub snapshot_retention_section : Section
snapshot_retention_section = declare "hourly" int_type (
    declare "daily" int_type
      (declare "weekly" int_type (declare "monthly" int_type (declare "yearly" int_type (done)))))

abbrev pub snapper_volume_config_section : Section
snapper_volume_config_section = declare "subvolume" text_type (
    declare "snapshots_subvolume" text_type (
      declare "snapshots_path" text_type (
        declare "timeline" bool_type (
          declare "cleanup" bool_type (
            declare "number_limit" int_type (
              declare "number_limit_important" int_type
                (declare "retention" (section_type snapshot_retention_section) (done))))))))

abbrev pub snapper_config_section : Section
snapper_config_section = declare "enabled" bool_type (
    declare "allow_groups" (tuple_type text_type) (
      declare "root" (optional_type (section_type snapper_volume_config_section)) (
        declare "home" (optional_type (section_type snapper_volume_config_section))
          (declare "snap_pac" bool_type (declare "bootable_snapshot_count" int_type (done))))))

abbrev pub notifications_config_section : Section
notifications_config_section = declare "enabled" bool_type (done)

abbrev pub firewall_ssh_config_section : Section
firewall_ssh_config_section =
    declare "enabled" bool_type (declare "port" int_type (declare "allowed_from" text_type (done)))

abbrev pub firewall_allow_rule_section : Section
firewall_allow_rule_section = declare "port" int_type (declare "protocol" text_type (done))

abbrev pub firewall_config_section : Section
firewall_config_section = declare "enabled" bool_type (
    declare "default_incoming" firewall_policy_type (
      declare "default_outgoing" firewall_policy_type (
        declare "logging" bool_type (
          declare "block_icmp" bool_type (
            declare "ssh" (section_type firewall_ssh_config_section) (
              declare "allow_rules" (tuple_type (section_type firewall_allow_rule_section))
                (done)))))))

abbrev pub docker_config_section : Section
docker_config_section = declare "enabled" bool_type (
    declare "storage_driver" text_type
      (declare "data_root" text_type (declare "access_group" text_type (done))))

abbrev pub backup_item_config_section : Section
backup_item_config_section =
    declare "name" text_type
      (declare "source_path" text_type (declare "description" text_type (done)))

abbrev pub sync_config_section : Section
sync_config_section = declare "backup_partition" text_type (
    declare "backup_items" (tuple_type (section_type backup_item_config_section))
      (declare "backup_categories" (tuple_type backup_category_type) (done)))

abbrev pub migration_config_section : Section
migration_config_section = declare "enabled" bool_type (
    declare "preserve_home" bool_type (
      declare "preserve_secure_boot_keys" bool_type
        (declare "additional_paths" (tuple_type text_type) (done))))

abbrev pub encrypted_secrets_config_section : Section
encrypted_secrets_config_section =
    declare "luks_password_encrypted" text_type (declare "user_password_encrypted" text_type (done))

abbrev pub credentials_section : Section
credentials_section =
    declare "luks_password" text_type
      (declare "user_password" text_type (declare "source_luks_password" text_type (done)))
