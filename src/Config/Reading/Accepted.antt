-- ===== src/Config/Reading/Accepted.antt =====
-- config/installer_config_builder.py: what is read from a text is accepted by the builder as it is.
use arch_installer.Prelude.{
  ◌≡◌, refl, String, Bool, true, false, Bool-cases, inl, inr, Option, none, some, List, [], ◌∷◌, ℕ,
  suc, ℤ, lower, member, is_digits, parse_int,
}
use arch_installer.Errors.{Result, ok, err, Holds, Holds-bind, map_result}
use arch_installer.Config.Value.{Value, text, tuple, Items, cons}
use arch_installer.Config.Schema.{
  FieldType, text_type, int_type, bool_type, enum_type, tuple_type, optional_type, section_type,
}
use arch_installer.Config.Builder.{convert, convert_enum, convert_items}
use arch_installer.Config.Reading.{
  true_words, false_words, text_items, read_items, parsed_number, bool_from_text, int_from_text,
  from_text,
}

-- A text, a number, a truth value, a member of an enumeration, or a tuple of such.
abbrev pub is_plain : FieldType → Bool
is_plain (tuple_type t) = is_plain t
is_plain (optional_type t) = false
is_plain (section_type s) = false
is_plain _ = true

module _ (repr : Value → String) where
  -- The builder takes the value as it is.
  abbrev pub IsAccepted : FieldType → Value → Type 0
  IsAccepted t v =
      (path : String) (missing : List String) → convert repr t v path missing ≡ ok (v, missing)

  abbrev AreAccepted : FieldType → Items → Type 0
  AreAccepted t vs =
      (path : String) (index : ℕ) (missing : List String)
      → convert_items (convert repr t) vs path index missing ≡ ok (vs, missing)

  bool-IsAccepted : (s label : String) → Holds (IsAccepted bool_type) (bool_from_text repr s label)
  unfolding bool_from_text convert
  bool-IsAccepted s label = elim (Bool-cases (member (lower s) true_words)) [
    | inl e ↦ rw e (λ path m. refl)
    | inr e ↦ elim (Bool-cases (member (lower s) false_words)) [
      | inl k ↦ rw (e, k) (λ path m. refl)
      | inr k ↦ rw (e, k) tt
    ]
  ]

  number-IsAccepted : (o : Option ℤ) → Holds (IsAccepted int_type) (parsed_number o)
  unfolding parsed_number convert
  number-IsAccepted none = tt
  number-IsAccepted (some n) = λ path m. refl

  int-IsAccepted : (s label : String) → Holds (IsAccepted int_type) (int_from_text repr s label)
  unfolding int_from_text
  int-IsAccepted s label = elim (Bool-cases (is_digits s)) [
    | inl e ↦ rw e (number-IsAccepted (parse_int s))
    | inr e ↦ rw e tt
  ]

  enum-IsAccepted :
      (members : List String) (t label : String)
      → Holds
          (IsAccepted (enum_type members))
          (map_result (λ converted. converted.0) (convert_enum repr members (text t) label []))
  unfolding convert_enum convert
  enum-IsAccepted members t label = elim (Bool-cases (member t members)) [
    | inl e ↦ rw e (λ path m. rw e refl)
    | inr e ↦ rw e tt
  ]

  cons-AreAccepted :
      (t : FieldType) (v : Value) (vs : Items)
      → IsAccepted t v
      → AreAccepted t vs
      → AreAccepted t (cons v vs)
  cons-AreAccepted t v vs h k path index m = rw (h _ m, k path (suc index) m) refl

  items-AreAccepted :
      (t : FieldType) (read : String → Result Value)
      → ((s : String) → Holds (IsAccepted t) (read s))
      → (items : List String) → Holds (AreAccepted t) (read_items read items)
  unfolding read_items
  items-AreAccepted t read h [] = λ path index m. refl
  items-AreAccepted t read h (s ∷ items) =
      Holds-bind (IsAccepted t) (AreAccepted t) (read s) _ (h s) λ v a.
        Holds-bind (AreAccepted t) (AreAccepted t) (read_items read items) _
          (items-AreAccepted t read h items) λ vs b. cons-AreAccepted t v vs a b

  tuple-IsAccepted :
      (t : FieldType) (r : Result Items)
      → Holds (AreAccepted t) r
      → Holds (IsAccepted (tuple_type t)) (map_result tuple r)
  unfolding convert
  tuple-IsAccepted t (ok vs) h = λ path m. rw (h path 0 m) refl
  tuple-IsAccepted t (err e) h = tt

  -- Whatever a text is read as, the builder takes it as it is, for every type but an optional value or a
  -- section.
  pub from_text-IsAccepted :
      (t : FieldType) (s label : String)
      → is_plain t ≡ true
      → Holds (IsAccepted t) (from_text repr t s label)
  unfolding from_text convert
  from_text-IsAccepted (tuple_type t) s label p =
      tuple-IsAccepted t _
        (items-AreAccepted t _ (λ item. from_text-IsAccepted t item label p) (text_items s))
  from_text-IsAccepted bool_type s label p = bool-IsAccepted s label
  from_text-IsAccepted int_type s label p = int-IsAccepted s label
  from_text-IsAccepted (enum_type members) s label p = enum-IsAccepted members (lower s) label
  from_text-IsAccepted text_type s label p = λ path m. refl
  from_text-IsAccepted (optional_type t) s label p = cc
  from_text-IsAccepted (section_type t) s label p = cc
