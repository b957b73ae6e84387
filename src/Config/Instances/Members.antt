-- ===== src/Config/Instances/Members.antt =====
-- The values of a declared type are those that `asdict` gives of a member of the class: the rules for
-- sections, tuples, optional values and enumerations.
use arch_installer.Prelude.{
  ◌≡◌, refl, sym, ap, ◌∙◌, and_left, and_right, eq_iff, String, ◌==◌, Bool, true, false, ◌||◌, ℤ,
  List, [], ◌∷◌, map, member, Option, none, some, Bool-cases, inl, inr,
}
use arch_installer.Config.Schema.{
  FieldType, text_type, int_type, bool_type, enum_type, tuple_type, optional_type, section_type,
  Section, done, declare,
}
use arch_installer.Config.Value.{
  Value, null, bool, int, text, tuple, dict, Items, nil, cons, Fields, end, field,
}
use arch_installer.Config.Export.{conforms, fields_conform, all_items}
use arch_installer.Config.AsDict.Members.{
  items_of, or_null, wipe_method_value, cpu_vendor_value, gpu_vendor_value, gpu_driver_value,
  firewall_policy_value, desktop_value, backup_category_value,
}
use arch_installer.Config.Declared.Members.{
  wipe_method_type, cpu_vendor_type, gpu_vendor_type, gpu_driver_type, firewall_policy_type,
  desktop_type, backup_category_type,
}
use arch_installer.Config.Models.Enums.{
  WipeMethod, CpuVendor, GpuVendor, GpuDriver, FirewallPolicy, Desktop, BackupCategory,
  wipe_method_text, cpu_vendor_text, gpu_vendor_text, gpu_driver_text, firewall_policy_text,
  desktop_text, backup_category_text,
}

-- each value of the type is `f` of some instance
pub record Covers {A : Type 0} (t : FieldType) (f : A → Value) : Type 0 where
  pub at : (v : Value) → conforms t v ≡ true → (a : A) × (f a ≡ v)

pub record FieldsCover {A : Type 0} (s : Section) (f : A → Fields) : Type 0 where
  pub at : (fs : Fields) → fields_conform s fs ≡ true → (a : A) × (f a ≡ fs)

-- the first field of a section, and the others
pub record FieldPair (A B : Type 0) : Type 0 where
  pub first : A
  pub rest : B

text-at : (v : Value) → conforms text_type v ≡ true → (s : String) × (text s ≡ v)
unfolding conforms
text-at (text s) h = (s, refl)
text-at v h = absurd (cc)

pub text-Covers : Covers text_type text
text-Covers = record { at = text-at }

int-at : (v : Value) → conforms int_type v ≡ true → (n : ℤ) × (int n ≡ v)
unfolding conforms
int-at (int n) h = (n, refl)
int-at v h = absurd (cc)

pub int-Covers : Covers int_type int
int-Covers = record { at = int-at }

bool-at : (v : Value) → conforms bool_type v ≡ true → (b : Bool) × (bool b ≡ v)
unfolding conforms
bool-at (bool b) h = (b, refl)
bool-at v h = absurd (cc)

pub bool-Covers : Covers bool_type bool
bool-Covers = record { at = bool-at }

module _ {A B : Type 0} {t : FieldType} {f : A → Value} {s : Section} {g : B → Fields} where
  declare-at :
      (name : String)
      → Covers t f
      → FieldsCover s g
      → (fs : Fields) → fields_conform (declare name t s) fs ≡ true
      → (p : FieldPair A B) × (field name (f p.first) (g p.rest) ≡ fs)
  unfolding conforms
  declare-at name c d (field k v fs) h =
      let (a, e) = c.at v (and_left _ _ (and_right (k == name) _ h)) in
      let (b, e') = d.at fs (and_right (conforms t v) _ (and_right (k == name) _ h)) in
      (record { first = a; rest = b }, cc (e, e', (eq_iff k name).0 (and_left _ _ h)))
  declare-at name c d end h = absurd (cc)

  infixr 67 ◌&◌
  pub ◌&◌ :
      {name : String}
      → Covers t f
      → FieldsCover s g
      → FieldsCover (declare name t s) λ (p : FieldPair A B). field name (f p.first) (g p.rest)
  ◌&◌ {name} c d = record { at = declare-at name c d }

done-at : (fs : Fields) → fields_conform done fs ≡ true → (u : Unit {0}) × (end ≡ fs)
unfolding conforms
done-at end h = (tt, refl)
done-at (field k v fs) h = absurd (cc)

pub done-Covers : FieldsCover {A = Unit {0}} done λ u. end
done-Covers = record { at = done-at }

module _ {A R : Type 0} {s : Section} {f : A → Fields} {g : R → Value} where
  section-at :
      FieldsCover s f
      → (make : A → R) → ((a : A) → g (make a) ≡ dict (f a))
      → (v : Value) → conforms (section_type s) v ≡ true
      → (r : R) × (g r ≡ v)
  unfolding conforms
  section-at d make same (dict fs) h = let (a, e) = d.at fs h in (make a, same a ∙ ap dict e)
  section-at d make same v h = absurd (cc)

  pub section-Covers :
      FieldsCover s f
      → (make : A → R) → ((a : A) → g (make a) ≡ dict (f a))
      → Covers (section_type s) g
  section-Covers d make same = record { at = section-at d make same }

module _ {A : Type 0} {t : FieldType} {f : A → Value} (c : Covers t f) where
  items-at : (vs : Items) → all_items (conforms t) vs ≡ true → (xs : List A) × (items_of f xs ≡ vs)
  unfolding items_of
  items-at nil h = ([], refl)
  items-at (cons v vs) h =
      let (x, e) = c.at v (and_left _ _ h) in
      let (xs, e') = items-at vs (and_right (conforms t v) _ h) in (x ∷ xs, cc (e, e'))

  tuple-at :
      (v : Value) → conforms (tuple_type t) v ≡ true → (xs : List A) × (tuple (items_of f xs) ≡ v)
  unfolding conforms
  tuple-at (tuple vs) h = let (xs, e) = items-at vs h in (xs, ap tuple e)
  tuple-at v h = absurd (cc)

  pub tuple-Covers : Covers (tuple_type t) λ xs. tuple (items_of f xs)
  tuple-Covers = record { at = tuple-at }

  or_null-at :
      (v : Value) → conforms (optional_type t) v ≡ true → (o : Option A) × (or_null f o ≡ v)
  unfolding conforms or_null
  or_null-at null h = (none, refl)
  or_null-at v h = let (a, e) = c.at v h in (some a, e)

  pub or_null-Covers : Covers (optional_type t) (or_null f)
  or_null-Covers = record { at = or_null-at }

or_rest : (a b : Bool) → a ≡ false → a || b ≡ true → b ≡ true
or_rest true b e h = cc
or_rest false b e h = h

module _ {E : Type 0} (to_text : E → String) where
  member-at :
      (es : List E) (s : String)
      → member s (map to_text es) ≡ true
      → (e : E) × (text (to_text e) ≡ text s)
  member-at [] s h = absurd (cc)
  member-at (e ∷ es) s h = elim (Bool-cases (s == to_text e)) [
    | inl same ↦ (e, ap text (sym ((eq_iff s (to_text e)).0 same)))
    | inr differs ↦ member-at es s (or_rest _ _ differs h)
  ]

  enum-at :
      (es : List E) (v : Value)
      → conforms (enum_type (map to_text es)) v ≡ true
      → (e : E) × (text (to_text e) ≡ v)
  unfolding conforms
  enum-at es (text s) h = member-at es s h
  enum-at es v h = absurd (cc)

  pub enum-Covers : (es : List E) → Covers (enum_type (map to_text es)) λ e. text (to_text e)
  enum-Covers es = record { at = enum-at es }

pub wipe_method_value-Covers : Covers wipe_method_type wipe_method_value
wipe_method_value-Covers =
    enum-Covers wipe_method_text
      (WipeMethod.quick ∷ WipeMethod.secure ∷ WipeMethod.discard ∷ WipeMethod.skip ∷ [])

pub cpu_vendor_value-Covers : Covers cpu_vendor_type cpu_vendor_value
cpu_vendor_value-Covers =
    enum-Covers cpu_vendor_text (CpuVendor.amd ∷ CpuVendor.intel ∷ CpuVendor.unknown ∷ [])

pub gpu_vendor_value-Covers : Covers gpu_vendor_type gpu_vendor_value
gpu_vendor_value-Covers =
    enum-Covers gpu_vendor_text
      (GpuVendor.amd ∷ GpuVendor.intel ∷ GpuVendor.nvidia ∷ GpuVendor.none ∷ [])

pub gpu_driver_value-Covers : Covers gpu_driver_type gpu_driver_value
gpu_driver_value-Covers = enum-Covers gpu_driver_text (
    GpuDriver.nouveau ∷ GpuDriver.nvidia_open ∷ GpuDriver.nvidia_dkms ∷ GpuDriver.vendor_default
    ∷ [])

pub firewall_policy_value-Covers : Covers firewall_policy_type firewall_policy_value
firewall_policy_value-Covers =
    enum-Covers firewall_policy_text
      (FirewallPolicy.allow ∷ FirewallPolicy.deny ∷ FirewallPolicy.reject ∷ [])

pub desktop_value-Covers : Covers desktop_type desktop_value
desktop_value-Covers =
    enum-Covers desktop_text (Desktop.kde ∷ Desktop.gnome ∷ Desktop.hyprland ∷ [])

pub backup_category_value-Covers : Covers backup_category_type backup_category_value
backup_category_value-Covers = enum-Covers backup_category_text (
    BackupCategory.dotfiles ∷ BackupCategory.keepass ∷ BackupCategory.browser
    ∷ BackupCategory.system ∷ [])
