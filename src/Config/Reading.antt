-- ===== src/Config/Reading.antt =====
-- config/installer_config_builder.py: setting texts from outside config.yaml, read as the type that the
-- model declares. `repr` stands for Python's.
pub mod Accepted
use arch_installer.Prelude.{
  String, ◌<>◌, Bool, true, false, not, ◌==◌, Option, none, some, List, [], ◌∷◌, ℤ, map, keep,
  member, lower, strip, split_on, is_digits, parse_int, if◌then◌else◌,
}
use arch_installer.Errors.{configuration_error, value_error, Result, ok, err, map_result, ◌>>=◌}
use arch_installer.Config.Value.{Value, text, int, bool, tuple, Items, nil, cons}
use arch_installer.Config.Schema.{
  FieldType, text_type, int_type, bool_type, enum_type, tuple_type, optional_type, section_type,
  Section, field_type,
}
use arch_installer.Config.Builder.{convert_enum}

abbrev pub true_words : List String
true_words = "true" ∷ "1" ∷ "yes" ∷ []

abbrev pub false_words : List String
false_words = "false" ∷ "0" ∷ "no" ∷ []

-- the type at the names of a path; none for Python's `KeyError`
type_at : FieldType → List String → Option FieldType
type_at t [] = some t
type_at (section_type s) (name ∷ names) = elim (field_type name s) [
  | none ↦ none
  | some t ↦ type_at t names
]
type_at _ (name ∷ names) = none

unfoldable pub setting_type : Section → String → Option FieldType
unfolding type_at
setting_type s setting_path = type_at (section_type s) (split_on 46 setting_path)

unfoldable pub text_items : String → List String
text_items t = keep (λ item. not (item == "")) (map strip (split_on 44 t))

unfoldable pub read_items : (String → Result Value) → List String → Result Items
read_items read [] = ok nil
read_items read (item ∷ items) = read item >>= λ v. read_items read items >>= λ vs. ok (cons v vs)

unfoldable pub parsed_number : Option ℤ → Result Value
parsed_number none = err (value_error "invalid literal for int()")
parsed_number (some n) = ok (int n)

module _ (repr : Value → String) where
  unfoldable pub bool_from_text : String → String → Result Value
  bool_from_text t label =
      if member (lower t) true_words
      then ok (bool true)
      else if member (lower t) false_words
      then ok (bool false)
      else err (configuration_error (label <> " must be true or false, got " <> repr (text t)))

  unfoldable pub int_from_text : String → String → Result Value
  int_from_text t label =
      if is_digits t
      then parsed_number (parse_int t)
      else err (configuration_error (label <> " must be a whole number, got " <> repr (text t)))

  -- `_from_text`
  unfoldable pub from_text : FieldType → String → String → Result Value
  from_text (tuple_type t) s label =
      map_result tuple (read_items (λ item. from_text t item label) (text_items s))
  from_text bool_type s label = bool_from_text s label
  from_text int_type s label = int_from_text s label
  from_text (enum_type members) s label =
      map_result (λ converted. converted.0) (convert_enum repr members (text (lower s)) label [])
  from_text _ s label = ok (text s)

  -- none for Python's `KeyError`
  unfoldable pub read_setting_text : Section → String → String → String → Option (Result Value)
  read_setting_text s setting_path t origin = elim (setting_type s setting_path) [
    | none ↦ none
    | some declared ↦ some (from_text declared t (origin <> " (" <> setting_path <> ")"))
  ]
