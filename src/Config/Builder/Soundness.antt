-- ===== src/Config/Builder/Soundness.antt =====
-- config/installer_config_builder.py: what the builder accepts.
use arch_installer.Prelude.{◌≡◌, String, true, List, [], arith}
use arch_installer.Prelude.Dict.{Dict}
use arch_installer.Errors.{Holds, Holds-bind}
use arch_installer.Config.Value.{Value, dict, Fields, get_field}
use arch_installer.Config.Schema.{
  FieldType, text_type, int_type, bool_type, enum_type, tuple_type, optional_type, section_type,
  Section, done, declare,
}
use arch_installer.Config.Export.{conforms, fields_conform}
use arch_installer.Config.Builder.{
  sub_path, convert, convert_fields, build, nested, update, no_credentials, complete_or_missing,
}
use arch_installer.Config.Builder.Cases.{
  Sound, items-Sound, instance_of-Sound, tuple-Sound, done-conforms, mapping-Sound, optional-Sound,
  trivial, complete-Sound, enum-Sound, int-Sound, bool-Sound, text-Sound, present-Sound,
}

module _ (repr : Value → String) where
  mutual
    unfolding convert

    convert-Sound :
        (t : FieldType) (v : Value) (path : String) (m : List String)
        → Holds (Sound (conforms t) m) (convert repr t v path m)
    convert-Sound (optional_type t) v path m =
        optional-Sound t v _ m (λ u. convert-Sound t u path m)
    convert-Sound (tuple_type t) v path m =
        tuple-Sound t v path _ m
          (λ vs. items-Sound (conforms t) (convert repr t) (convert-Sound t) vs path 0 m)
    convert-Sound (section_type s) v path m =
        mapping-Sound (conforms (section_type s)) s v path _ m
          (λ fs. instance_of-Sound s m _ (fields-Sound s fs path m))
    convert-Sound (enum_type members) v path m = enum-Sound repr members v path m
    convert-Sound int_type v path m = int-Sound repr v path m
    convert-Sound bool_type v path m = bool-Sound repr v path m
    convert-Sound text_type v path m = text-Sound repr v path m

    fields-Sound :
        (s : Section) (fs : Fields) (path : String) (m : List String)
        → Holds (Sound (fields_conform s) m) (convert_fields repr s fs path m)
    fields-Sound done fs path m = (omega arith, λ _. done-conforms)
    fields-Sound (declare name t s) fs path m =
        present-Sound repr name t s (get_field name fs) (sub_path path name) _ _ m
          (λ v. convert-Sound t v (sub_path path name) m) (λ m'. fields-Sound s fs path m')

  -- A configuration that is built has a value of the declared type for every setting that the
  -- model declares, at any depth and in the order of declaration, and nothing else.
  pub build-conforms :
      (s : Section) (values : Dict Value)
      → Holds (λ config. conforms (section_type s) config ≡ true) (build repr s values)
  unfolding build
  build-conforms s values =
      Holds-bind (λ _. Unit {0}) _ (nested (update no_credentials values)) _ (trivial _)
        λ fs _.
          Holds-bind (Sound (conforms (section_type s)) []) _
            (convert repr (section_type s) (dict fs) "" []) complete_or_missing
            (convert-Sound (section_type s) (dict fs) "" []) (complete-Sound s)
