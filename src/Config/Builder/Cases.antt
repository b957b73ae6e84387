-- ===== src/Config/Builder/Cases.antt =====
-- config/installer_config_builder.py: the converters of one value, each on its own.
use arch_installer.Prelude.{
  ◌≡◌, refl, ap, ltb, ltb→lt, or_right, and_right, String, length, length-append, Bool, true,
  Option, none, some, List, [], ◌∷◌, ◌++◌, ℕ, suc, ◌≤◌, arith, Bool-cases, inl, inr, member,
  sort_texts,
}
use package.text.Mathlib.TextPositions.{eq_refl}
use arch_installer.Errors.{◌>>=◌, Result, ok, err, Holds, Holds-bind}
use arch_installer.Config.Value.{
  Value, null, bool, int, text, list, tuple, dict, Items, nil, cons, Fields, end, field,
  count_fields,
}
use arch_installer.Config.Schema.{
  FieldType, text_type, int_type, bool_type, enum_type, tuple_type, optional_type, section_type,
  Section, done, declare, count_declared,
}
use arch_installer.Config.Export.{is_null, conforms, fields_conform, all_items}
use arch_installer.Config.Builder.{
  Converted, unknown_keys, without_unknown, with_mapping, instance_of, convert_items, tuple_of,
  convert_tuple, convert_optional, convert_enum, convert_int, convert_bool, convert_text,
  convert_present, complete_or_missing,
}

-- The list of missing settings only grows, and where it does not grow the property holds.
abbrev pub Sound : {A : Type 0} → (A → Bool) → List String → A × List String → Type 0
Sound good missing (a, missing') =
    (length missing ≤ length missing') × (length missing' ≤ length missing → good a ≡ true)

pub items-Sound :
    (good : Value → Bool) (f : Value → String → List String → Converted Value)
    → ((v : Value) (path : String) (m : List String) → Holds (Sound good m) (f v path m))
    → (vs : Items) (path : String) (i : ℕ) (m : List String)
    → Holds (Sound (all_items good) m) (convert_items f vs path i m)
items-Sound good f h nil path i m = (omega arith, λ _. refl)
items-Sound good f h (cons v vs) path i m =
    Holds-bind (Sound good m) _ (f v _ m) _ (h v _ m) λ (v', m') (le, g).
      Holds-bind (Sound (all_items good) m') _ (convert_items f vs path (suc i) m') _
        (items-Sound good f h vs path (suc i) m')
        λ (vs', m'') (le', gs). (omega arith, λ small. rw (g (omega arith)) (gs (omega arith)))

weaken :
    (t : FieldType) (m : List String) (r : Converted Value)
    → Holds (Sound (conforms t) m) r
    → Holds (Sound (conforms (optional_type t)) m) r
unfolding conforms
weaken t m (err e) h = tt
weaken t m (ok (v, m')) (le, g) = (le, λ small. or_right (is_null v) _ (g small))

tuple_of-Sound :
    (t : FieldType) (m : List String) (r : Converted Items)
    → Holds (Sound (all_items (conforms t)) m) r
    → Holds (Sound (conforms (tuple_type t)) m) (r >>= tuple_of)
unfolding conforms
tuple_of-Sound t m (ok (vs, m')) h = h
tuple_of-Sound t m (err e) h = tt

pub count-conform :
    (s : Section) (fs : Fields) → fields_conform s fs ≡ true → count_fields fs ≡ count_declared s
unfolding conforms
count-conform done end h = refl
count-conform done (field k v fs) h = cc
count-conform (declare name t s) end h = cc
count-conform (declare name t s) (field k v fs) h =
    ap suc (count-conform s fs (and_right _ _ (and_right _ _ h)))

pub instance_of-Sound :
    (s : Section) (m : List String) (r : Converted Fields)
    → Holds (Sound (fields_conform s) m) r
    → Holds (Sound (conforms (section_type s)) m) (r >>= instance_of s)
unfolding conforms
instance_of-Sound s m (err e) h = tt
instance_of-Sound s m (ok (args, m')) (le, g) =
    elim (Bool-cases (ltb (count_fields args) (count_declared s))) [
      | inl short ↦
          rw short
            (le, λ small. absurd (omega (arith, ltb→lt _ _ short, count-conform s args (g small))))
      | inr full ↦ rw full (le, g)
    ]

pub tuple-Sound :
    (t : FieldType) (v : Value) (path : String) (f : Items → Converted Items) (m : List String)
    → ((vs : Items) → Holds (Sound (all_items (conforms t)) m) (f vs))
    → Holds (Sound (conforms (tuple_type t)) m) (convert_tuple v path f m)
unfolding conforms
tuple-Sound t null path f m h = (omega arith, λ _. refl)
tuple-Sound t (list vs) path f m h = tuple_of-Sound t m (f vs) (h vs)
tuple-Sound t (tuple vs) path f m h = tuple_of-Sound t m (f vs) (h vs)
tuple-Sound t _ path f m h = tt

without_unknown-Sound :
    (good : Value → Bool) (ks : List String) (path : String) (body : Fields → Converted Value)
    (fs : Fields) (m : List String)
    → Holds (Sound good m) (body fs)
    → Holds (Sound good m) (without_unknown ks path body fs)
without_unknown-Sound good [] path body fs m h = h
without_unknown-Sound good (k ∷ ks) path body fs m h = tt

pub done-conforms : fields_conform done end ≡ true
unfolding conforms
done-conforms = refl

-- A setting that was reported missing is never taken back.
reported-Sound :
    {A : Type 0} (good good' : A → Bool) (m : List String) (p : String) (r : Converted A)
    → Holds (Sound good (m ++ (p ∷ []))) r
    → Holds (Sound good' m) r
reported-Sound good good' m p (ok (a, m')) (le, g) =
    let longer = length-append m (p ∷ []) in (omega arith, λ small. absurd (omega arith))
reported-Sound good good' m p (err e) h = tt

pub mapping-Sound :
    (good : Value → Bool) (s : Section) (v : Value) (path : String)
    (body : Fields → Converted Value) (m : List String)
    → ((fs : Fields) → Holds (Sound good m) (body fs))
    → Holds (Sound good m) (with_mapping s v path body)
mapping-Sound good s (dict fs) path body m h =
    without_unknown-Sound good (sort_texts (unknown_keys s fs)) path body fs m (h fs)
mapping-Sound good s _ path body m h = tt

pub optional-Sound :
    (t : FieldType) (v : Value) (f : Value → Converted Value) (m : List String)
    → ((u : Value) → Holds (Sound (conforms t) m) (f u))
    → Holds (Sound (conforms (optional_type t)) m) (convert_optional v f m)
unfolding conforms
optional-Sound t null f m h = (omega arith, λ _. refl)
optional-Sound t (bool _) f m h = weaken t m _ (h _)
optional-Sound t v f m h = weaken t m _ (h v)

pub trivial : {A : Type 0} (r : Result A) → Holds (λ _. Unit {0}) r
trivial (ok a) = tt
trivial (err e) = tt

pub complete-Sound :
    (s : Section) (r : Value × List String)
    → Sound (conforms (section_type s)) [] r
    → Holds (λ config. conforms (section_type s) config ≡ true) (complete_or_missing r)
complete-Sound s (config, []) (le, g) = g (omega arith)
complete-Sound s (config, path ∷ paths) h = tt

module _ (repr : Value → String) where
  pub enum-Sound :
      (members : List String) (v : Value) (path : String) (m : List String)
      → Holds (Sound (conforms (enum_type members)) m) (convert_enum repr members v path m)
  unfolding conforms convert_enum
  enum-Sound members (text t) path m = elim (Bool-cases (member t members)) [
    | inl found ↦ rw found (omega arith, λ _. found)
    | inr absent ↦ rw absent tt
  ]
  enum-Sound members null path m = elim (Bool-cases (member "" members)) [
    | inl found ↦ rw found (omega arith, λ _. found)
    | inr absent ↦ rw absent tt
  ]
  enum-Sound members _ path m = tt

  pub int-Sound :
      (v : Value) (path : String) (m : List String)
      → Holds (Sound (conforms int_type) m) (convert_int repr v path m)
  unfolding conforms
  int-Sound (int n) path m = (omega arith, λ _. refl)
  int-Sound _ path m = tt

  pub bool-Sound :
      (v : Value) (path : String) (m : List String)
      → Holds (Sound (conforms bool_type) m) (convert_bool repr v path m)
  unfolding conforms
  bool-Sound (bool b) path m = (omega arith, λ _. refl)
  bool-Sound _ path m = tt

  pub text-Sound :
      (v : Value) (path : String) (m : List String)
      → Holds (Sound (conforms text_type) m) (convert_text repr v path m)
  unfolding conforms
  text-Sound (text t) path m = (omega arith, λ _. refl)
  text-Sound null path m = (omega arith, λ _. refl)
  text-Sound _ path m = tt

  -- One declared field: what the rest gives is put behind it, if it is there.
  pub present-Sound :
      (name : String) (t : FieldType) (s : Section) (o : Option Value) (p : String)
      (f : Value → Converted Value) (rest : List String → Converted Fields) (m : List String)
      → ((v : Value) → Holds (Sound (conforms t) m) (f v))
      → ((m' : List String) → Holds (Sound (fields_conform s) m') (rest m'))
      → Holds (Sound (fields_conform (declare name t s)) m) (convert_present repr name o f rest m p)
  unfolding conforms
  present-Sound name t s none p f rest m hf hr =
      reported-Sound (fields_conform s) _ m p (rest (m ++ (p ∷ []))) (hr (m ++ (p ∷ [])))
  present-Sound name t s (some v) p f rest m hf hr =
      Holds-bind (Sound (conforms t) m) _ (f v) _ (hf v) λ (v', m') (le, g).
        Holds-bind (Sound (fields_conform s) m') _ (rest m') _ (hr m') λ (args, m'') (le', gs).
          (omega arith, λ small. rw (eq_refl, g (omega arith)) (gs (omega arith)))
