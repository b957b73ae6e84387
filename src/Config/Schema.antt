-- ===== src/Config/Schema.antt =====
-- What `get_type_hints` and `dataclasses.fields` say of the configuration model, as data: the type of
-- every setting, and the fields of every section in the order of their declaration.
use arch_installer.Prelude.{
  String, ◌==◌, Bool, true, false, not, ◌&&◌, Option, none, some, List, ℕ, suc, if◌then◌else◌,
}

mutual
  pub data FieldType : Type 0 where
    text_type int_type bool_type : FieldType
    -- the values of the members
    enum_type : List String → FieldType
    tuple_type optional_type : FieldType → FieldType
    section_type : Section → FieldType

  pub data Section : Type 0 where
    done : Section
    declare : String → FieldType → Section → Section

abbrev pub field_type : String → Section → Option FieldType
field_type name done = none
field_type name (declare j t s) = if j == name then some t else field_type name s

abbrev pub count_declared : Section → ℕ
count_declared done = 0
count_declared (declare j t s) = suc (count_declared s)

abbrev pub is_declared : String → Section → Bool
is_declared name done = false
is_declared name (declare j t s) = elim (j == name) [ true ↦ true | false ↦ is_declared name s ]

-- No section declares a name twice, at any depth.
unfoldable mutual
  pub has_unique_names : FieldType → Bool
  has_unique_names (tuple_type t) = has_unique_names t
  has_unique_names (optional_type t) = has_unique_names t
  has_unique_names (section_type s) = section_has_unique_names s
  has_unique_names _ = true

  pub section_has_unique_names : Section → Bool
  section_has_unique_names done = true
  section_has_unique_names (declare j t s) =
      not (is_declared j s) && has_unique_names t && section_has_unique_names s
