-- ===== src/Config/Exported.antt =====
-- models.py: `exportable_config`, what final_config.yaml and the backups hold.
pub mod RoundTrip
use arch_installer.Prelude.{String, ◌==◌, if◌then◌else◌}
use arch_installer.Config.Value.{Value, dict, Fields, end, field}
use arch_installer.Config.Export.{plain_yaml_value}
use arch_installer.Config.Models.{InstallerConfig}
use arch_installer.Config.AsDict.{installer_config_dict}

-- `del d[name]`, of a field that is there
unfoldable pub remove_field : String → Fields → Fields
remove_field name end = end
remove_field name (field k v fs) =
    let rest = remove_field name fs in if k == name then fs else field k v rest

unfoldable pub fields_of : Value → Fields
fields_of (dict fs) = fs
fields_of _ = end

unfoldable pub exportable_config : InstallerConfig → Value
unfolding fields_of remove_field plain_yaml_value installer_config_dict
exportable_config config = dict (
    remove_field "secrets"
      (remove_field "credentials" (fields_of (plain_yaml_value (installer_config_dict config)))))
