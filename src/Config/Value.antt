-- ===== src/Config/Value.antt =====
-- The values that a setting can have: what `yaml.safe_load` and the environment give. A member of a
-- `StrEnum` equals its text and is kept as that text. Keys of a mapping are texts. `other` is an
-- object of any further type (a float, a date), with the text that `repr` shows.
use arch_installer.Prelude.{
  String, ◌==◌, Bool, true, false, ◌&&◌, not, Option, none, some, ℕ, suc, eqb, ℤ, pos, negsuc,
  if◌then◌else◌,
}

mutual
  pub data Value : Type 0 where
    null : Value
    bool : Bool → Value
    int : ℤ → Value
    text : String → Value
    list : Items → Value
    tuple : Items → Value
    dict : Fields → Value
    other : String → Value

  pub data Items : Type 0 where
    nil : Items
    cons : Value → Items → Items

  pub data Fields : Type 0 where
    end : Fields
    field : String → Value → Fields → Fields

unfoldable pub get_field : String → Fields → Option Value
get_field k end = none
get_field k (field j v fs) = if j == k then some v else get_field k fs

unfoldable pub set_field : String → Value → Fields → Fields
set_field k v end = field k v end
set_field k v (field j w fs) = if j == k then field k v fs else field j w (set_field k v fs)

abbrev pub count_fields : Fields → ℕ
count_fields end = 0
count_fields (field k v fs) = suc (count_fields fs)

-- `True == 1`
abbrev pub as_int : Bool → ℤ
as_int true = pos 1
as_int false = pos 0

abbrev pub eq_int : ℤ → ℤ → Bool
eq_int (pos m) (pos n) = eqb m n
eq_int (negsuc m) (negsuc n) = eqb m n
eq_int _ _ = false

abbrev eq_bool : Bool → Bool → Bool
eq_bool true b = b
eq_bool false b = not b

abbrev found_eq : (Value → Bool) → Option Value → Bool
found_eq test none = false
found_eq test (some v) = test v

-- `bool(value)`
abbrev pub truthy : Value → Bool
truthy null = false
truthy (bool b) = b
truthy (int n) = not (eq_int n (pos 0))
truthy (text s) = not (s == "")
truthy (list nil) = false
truthy (tuple nil) = false
truthy (dict end) = false
truthy _ = true

-- Python's `==`: `True` and `1` are equal, a list and a tuple never are, mappings compare unordered.
unfoldable mutual
  pub py_eq : Value → Value → Bool
  py_eq null null = true
  py_eq (bool a) (bool b) = eq_bool a b
  py_eq (bool a) (int b) = eq_int (as_int a) b
  py_eq (int a) (bool b) = eq_int a (as_int b)
  py_eq (int a) (int b) = eq_int a b
  py_eq (text a) (text b) = a == b
  py_eq (list xs) (list ys) = items_eq xs ys
  py_eq (tuple xs) (tuple ys) = items_eq xs ys
  py_eq (dict fs) (dict gs) = eqb (count_fields fs) (count_fields gs) && fields_in fs gs
  py_eq (other a) (other b) = a == b
  py_eq _ _ = false

  pub items_eq : Items → Items → Bool
  items_eq nil nil = true
  items_eq (cons x xs) (cons y ys) = py_eq x y && items_eq xs ys
  items_eq _ _ = false

  pub fields_in : Fields → Fields → Bool
  fields_in end gs = true
  fields_in (field k v fs) gs = found_eq (py_eq v) (get_field k gs) && fields_in fs gs
