-- ===== src/Config/Builder/RoundTrip.antt =====
-- config/installer_config_builder.py over models.py: an exported configuration is read back.
use package.text.Mathlib.TextPositions.{eq_refl}
use arch_installer.Prelude.{
  ◌≡◌, refl, and_left, and_right, String, ◌==◌, eq_iff, ltb, ◌<>◌, show_nat, Bool, true, false, not,
  ◌&&◌, Option, some, List, [], ℕ, suc, arith, sort_texts,
}
use arch_installer.Errors.{◌>>=◌, ok}
use arch_installer.Config.Value.{
  Value, null, bool, int, text, list, tuple, dict, other, Items, nil, cons, Fields, end, field,
  get_field,
}
use arch_installer.Config.Schema.{
  FieldType, text_type, int_type, bool_type, enum_type, tuple_type, optional_type, section_type,
  Section, done, declare, is_declared, has_unique_names, section_has_unique_names,
}
use arch_installer.Config.Export.{
  plain_yaml_value, plain_items, plain_fields, conforms, fields_conform, all_items,
}
use arch_installer.Config.Builder.Cases.{count-conform}
use arch_installer.Config.Builder.{
  Converted, sub_path, unknown_keys, with_mapping, instance_of, convert_items, convert_optional,
  convert_present, convert, convert_fields,
}

items-plain :
    (good : Value → Bool) (f : Value → String → List String → Converted Value)
    → ((v : Value) (path : String) (m : List String)
        → good v ≡ true
        → f (plain_yaml_value v) path m ≡ ok (v, m))
    → (vs : Items) (path : String) (i : ℕ) (m : List String) → all_items good vs ≡ true
    → convert_items f (plain_items vs) path i m ≡ ok (vs, m)
unfolding plain_yaml_value
items-plain good f h nil path i m c = refl
items-plain good f h (cons v vs) path i m c =
    let both = c in
    rw (
      h v (path <> "[" <> show_nat i <> "]") m (and_left (good v) (all_items good vs) both),
      items-plain good f h vs path (suc i) m (and_right (good v) (all_items good vs) both),
    )

-- every field of `fs` is found in the exported mapping `whole`
abbrev AllIn : Fields → Fields → Type 0
AllIn end whole = Unit
AllIn (field k v fs) whole = (get_field k whole ≡ some (plain_yaml_value v)) × AllIn fs whole

declared-head :
    (name k : String) (t : FieldType) (s : Section)
    → (k == name) ≡ true
    → is_declared k (declare name t s) ≡ true
declared-head name k t s h = ground (arith, eq_iff k name, eq_iff name k)

unknown-plain :
    (whole s : Section) (fs : Fields)
    → ((n : String) → is_declared n s ≡ true → is_declared n whole ≡ true)
    → fields_conform s fs ≡ true
    → unknown_keys whole (plain_fields fs) ≡ []
unfolding conforms plain_yaml_value
unknown-plain whole done end sub c = refl
unknown-plain whole done (field k v fs) sub c = cc
unknown-plain whole (declare name t s) end sub c = refl
unknown-plain whole (declare name t s) (field k v fs) sub c =
    rw (sub k (declared-head name k t s (and_left (k == name) _ c))) (
      unknown-plain whole s fs (λ n h. sub n (later n h))
        (and_right (conforms t v) _ (and_right (k == name) _ c)))
  where
    later : (n : String) → is_declared n s ≡ true → is_declared n (declare name t s) ≡ true
    later n h = ground arith

AllIn-weaken :
    (s : Section) (fs : Fields) (k : String) (w : Value) (whole : Fields)
    → fields_conform s fs ≡ true
    → is_declared k s ≡ false
    → AllIn fs whole
    → AllIn fs (field k w whole)
unfolding conforms get_field
AllIn-weaken s end k w whole c d h = tt
AllIn-weaken done (field j v fs) k w whole c d h = cc
AllIn-weaken (declare name t s) (field j v fs) k w whole c d (e, h) = (
  ground (arith, eq_iff name k, eq_iff k j, eq_iff j name, and_left (j == name) _ c),
  AllIn-weaken s fs k w whole (and_right (conforms t v) _ (and_right (j == name) _ c))
      (ground arith) h,
)

not-true : (b : Bool) → not b ≡ true → b ≡ false
not-true true h = cc
not-true false h = refl

AllIn-plain :
    (s : Section) (fs : Fields)
    → fields_conform s fs ≡ true
    → section_has_unique_names s ≡ true
    → AllIn fs (plain_fields fs)
unfolding conforms plain_yaml_value get_field has_unique_names
AllIn-plain s end c u = tt
AllIn-plain done (field k v fs) c u = cc
AllIn-plain (declare name t s) (field k v fs) c u =
    let c' = and_right (conforms t v) _ (and_right (k == name) _ c) in
    let same : k ≡ name = (eq_iff k name).0 (and_left (k == name) _ c) in
    (
      rw eq_refl,
      AllIn-weaken s fs k (plain_yaml_value v) (plain_fields fs) c'
          (rw same (
            not-true _ (
              and_left (not (is_declared name s)) (has_unique_names t)
                (and_left _ (section_has_unique_names s) u))))
          (AllIn-plain s fs c' (and_right (not (is_declared name s) && has_unique_names t) _ u)),
    )

ltb_self : (n : ℕ) → ltb n n ≡ false
ltb_self n = ground arith

section-plain :
    (s : Section) (whole fs : Fields) (path : String) (m : List String)
    (f : Fields → Converted Fields)
    → unknown_keys s whole ≡ []
    → f whole ≡ ok (fs, m)
    → fields_conform s fs ≡ true
    → with_mapping s (dict whole) path (λ x. f x >>= instance_of s) ≡ ok (dict fs, m)
unfolding sort_texts
section-plain s whole fs path m f un e c = rw (un, e, count-conform s fs c, ltb_self)

optional-plain :
    (t : FieldType) (v : Value) (f : Value → Converted Value) (m : List String)
    → (conforms t v ≡ true → f (plain_yaml_value v) ≡ ok (v, m))
    → conforms (optional_type t) v ≡ true
    → convert_optional (plain_yaml_value v) f m ≡ ok (v, m)
unfolding conforms plain_yaml_value
optional-plain t null f m h c = refl
optional-plain t (bool b) f m h c = h c
optional-plain t (int n) f m h c = h c
optional-plain t (text x) f m h c = h c
optional-plain t (list vs) f m h c = h c
optional-plain t (tuple vs) f m h c = h c
optional-plain t (dict fs) f m h c = h c
optional-plain t (other x) f m h c = h c

module _ (repr : Value → String) where
  present-plain :
      (name : String) (o : Option Value) (u v : Value) (fs : Fields) (f : Value → Converted Value)
      (rest : List String → Converted Fields) (m : List String) (p : String)
      → o ≡ some u
      → f u ≡ ok (v, m)
      → rest m ≡ ok (fs, m)
      → convert_present repr name o f rest m p ≡ ok (field name v fs, m)
  present-plain name o u v fs f rest m p e h k = rw (e, h, k)

  mutual
    unfolding convert conforms plain_yaml_value has_unique_names

    convert-plain :
        (t : FieldType) (v : Value) (path : String) (m : List String)
        → has_unique_names t ≡ true
        → conforms t v ≡ true
        → convert repr t (plain_yaml_value v) path m ≡ ok (v, m)
    convert-plain text_type (text x) path m u c = refl
    convert-plain int_type (int n) path m u c = refl
    convert-plain bool_type (bool b) path m u c = refl
    convert-plain (enum_type members) (text x) path m u c = rw c
    convert-plain (tuple_type t) (tuple vs) path m u c = rw (
        items-plain (conforms t) (convert repr t) (λ v p n d. convert-plain t v p n u d) vs path 0 m
          c)
    convert-plain (optional_type t) v path m u c =
        optional-plain t v _ m (λ d. convert-plain t v path m u d) c
    convert-plain (section_type s) (dict fs) path m u c =
        section-plain s (plain_fields fs) fs path m _ (unknown-plain s s fs (λ n h. h) c)
          (fields-plain s fs (plain_fields fs) path m u c (AllIn-plain s fs c u)) c
    convert-plain _ v path m u c = cc

    fields-plain :
        (s : Section) (fs whole : Fields) (path : String) (m : List String)
        → section_has_unique_names s ≡ true
        → fields_conform s fs ≡ true
        → AllIn fs whole
        → convert_fields repr s whole path m ≡ ok (fs, m)
    fields-plain done end whole path m u c h = refl
    fields-plain done (field k v fs) whole path m u c h = cc
    fields-plain (declare name t s) end whole path m u c h = cc
    fields-plain (declare name t s) (field k v fs) whole path m u c (e, h) =
        let same : k ≡ name = (eq_iff k name).0 (and_left (k == name) _ c) in
        let c' = and_right (k == name) _ c in
        let u' = and_left (not (is_declared name s) && has_unique_names t) _ u in
        rw same (
          present-plain name (get_field name whole) (plain_yaml_value v) v fs _ _ m
            (sub_path path name) (rw same at e)
            (convert-plain t v (sub_path path name) m (and_right (not (is_declared name s)) _ u')
              (and_left (conforms t v) _ c'))
            (fields-plain s fs whole path m
              (and_right (not (is_declared name s) && has_unique_names t) _ u)
              (and_right (conforms t v) _ c') h))

  -- A configuration whose values have the declared types, written out as plain YAML values, is read
  -- back as it was, with nothing reported missing: lists become tuples again, at any depth. The
  -- sections declare no name twice.
  pub convert-plain_yaml_value :
      (t : FieldType) (config : Value) (path : String) (missing : List String)
      → has_unique_names t ≡ true
      → conforms t config ≡ true
      → convert repr t (plain_yaml_value config) path missing ≡ ok (config, missing)
  convert-plain_yaml_value t config path missing unique typed =
      convert-plain t config path missing unique typed
