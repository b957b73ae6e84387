-- ===== src/Config/Instances/Built.antt =====
-- config/installer_config_builder.py: `build_installer_config`, with the instance that it returns.
use arch_installer.Prelude.{◌≡◌, refl, ap, String, true}
use arch_installer.Prelude.Dict.{Dict}
use arch_installer.Errors.{Result, ok, err, Holds, map_result}
use arch_installer.Config.Value.{Value}
use arch_installer.Config.Schema.{section_type}
use arch_installer.Config.Export.{conforms}
use arch_installer.Config.Builder.{build}
use arch_installer.Config.Builder.Soundness.{build-conforms}
use arch_installer.Config.Models.{InstallerConfig}
use arch_installer.Config.Declared.{installer_config_section}
use arch_installer.Config.AsDict.{installer_config_dict}
use arch_installer.Config.Instances.{installer_config_dict-Covers}

-- The instance with the given values, which have the declared types: a dataclass is made of its
-- arguments alone, so it is the instance that `asdict` turns back into them.
abbrev as_instance :
    (r : Result Value)
    → Holds (λ v. conforms (section_type installer_config_section) v ≡ true) r
    → Result InstallerConfig
as_instance (ok v) h = ok (installer_config_dict-Covers.at v h).0
as_instance (err e) h = err e

as_instance-dict :
    (r : Result Value)
    (h : Holds (λ v. conforms (section_type installer_config_section) v ≡ true) r)
    → map_result installer_config_dict (as_instance r h) ≡ r
as_instance-dict (ok v) h = ap ok (installer_config_dict-Covers.at v h).1
as_instance-dict (err e) h = refl

-- The builder gathers the values, which have the declared types, and makes the instance of them.
unfoldable pub build_installer_config : (Value → String) → Dict Value → Result InstallerConfig
build_installer_config repr values =
    as_instance (build repr installer_config_section values)
      (build-conforms repr installer_config_section values)

-- Whatever the values, the configuration that is built is an instance of the model that `asdict`
-- turns back into exactly the values that the builder gathered, and an error stays that error.
build_installer_config-dict :
    (repr : Value → String) (values : Dict Value)
    → map_result installer_config_dict (build_installer_config repr values)
      ≡ build repr installer_config_section values
unfolding build_installer_config
build_installer_config-dict repr values =
    as_instance-dict (build repr installer_config_section values)
      (build-conforms repr installer_config_section values)
