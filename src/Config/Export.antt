-- ===== src/Config/Export.antt =====
-- models.py: `_plain_yaml_value`, the values that `exportable_config` writes, and the values that a
-- setting of a given type can have.
use arch_installer.Prelude.{◌==◌, member, Bool, true, false, ◌&&◌, ◌||◌}
use arch_installer.Config.Value.{
  Value, null, bool, int, text, list, tuple, dict, Items, nil, cons, Fields, end, field,
}
use arch_installer.Config.Schema.{
  FieldType, text_type, int_type, bool_type, enum_type, tuple_type, optional_type, section_type,
  Section, done, declare,
}

unfoldable mutual
  pub plain_yaml_value : Value → Value
  plain_yaml_value (dict fs) = dict (plain_fields fs)
  plain_yaml_value (tuple vs) = list (plain_items vs)
  plain_yaml_value v = v

  pub plain_items : Items → Items
  plain_items nil = nil
  plain_items (cons v vs) = cons (plain_yaml_value v) (plain_items vs)

  pub plain_fields : Fields → Fields
  plain_fields end = end
  plain_fields (field k v fs) = field k (plain_yaml_value v) (plain_fields fs)

abbrev pub is_null : Value → Bool
is_null null = true
is_null _ = false

abbrev pub all_items : (Value → Bool) → Items → Bool
all_items p nil = true
all_items p (cons v vs) = p v && all_items p vs

-- The values of a type: those that a built configuration holds.
unfoldable mutual
  pub conforms : FieldType → Value → Bool
  conforms text_type (text s) = true
  conforms int_type (int n) = true
  conforms bool_type (bool b) = true
  conforms (enum_type members) (text s) = member s members
  conforms (tuple_type t) (tuple vs) = all_items (conforms t) vs
  conforms (optional_type t) v = is_null v || conforms t v
  conforms (section_type s) (dict fs) = fields_conform s fs
  conforms _ _ = false

  pub fields_conform : Section → Fields → Bool
  fields_conform done end = true
  fields_conform (declare name t s) (field k v fs) =
      k == name && (conforms t v && fields_conform s fs)
  fields_conform _ _ = false
