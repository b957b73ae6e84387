-- ===== src/Tui/Menus/Chosen.antt =====
-- tui/widgets.py: what the menus can end with.
use arch_installer.Prelude.{
  ◌≡◌, refl, arith, inl, inr, String, member, Bool, true, false, Option, some, List, [], ◌∷◌, map,
  ℕ, zero, suc, ◌+◌, ◌<◌, Bool-cases, eqb, ℤ, pos, negsuc, length, get_elem?, keep, All,
}
use arch_installer.Errors.{Error, Result, ok, err, ◌>>=◌}
use arch_installer.Setup.Ui.Ends.{GivesIn, Gives, Gives-bind, Gives-pure, Gives-or_raise}
use arch_installer.Setup.Frontend.{Inherited}
use arch_installer.Tui.Keys.{is_enter, key_space}
use arch_installer.Tui.Lists.{item_at, found_or_raise}
use arch_installer.Tui.Lists.Cursor.{IsRow, IsQuit, Handled, OnRow, run_list-OnRow}
use arch_installer.Tui.Menus.{
  MenuOption, toggled, checked_values, start_from, accept_enter, radio_menu, check_key,
  checkbox_menu, inherited_values,
}

-- a row of a list has an item
item_at-IsRow :
    {A : Type 0} (xs : List A) (k : ℕ) → k < length xs → (x : A) × (get_elem? xs k ≡ some x)
item_at-IsRow [] k h = absurd (omega arith)
item_at-IsRow (x ∷ xs) zero h = (x, refl)
item_at-IsRow (x ∷ xs) (suc k) h = item_at-IsRow xs k (omega arith)

found-GivesIn :
    {A : Type 0} (P : A → Type 0) (X : Error → Type 0) (xs : List A) (c : ℤ)
    → IsRow (length xs) c
    → ((k : ℕ) (x : A) → get_elem? xs k ≡ some x → P x)
    → GivesIn P X (found_or_raise (item_at xs c))
unfolding found_or_raise item_at
found-GivesIn P X xs (negsuc k) h p = absurd h
found-GivesIn P X xs (pos k) h p = let (x, e) = item_at-IsRow xs k h in rw e (p k x e)

start_from-bound :
    (inherited : Option (Inherited String)) (options : List MenuOption) (index count : ℕ)
    → index + length options ≡ count
    → 0 < count
    → start_from inherited options index < count
unfolding start_from
start_from-bound inherited [] index count e h = h
start_from-bound inherited (option ∷ options) index count e h =
    let rest = start_from-bound inherited options (suc index) count (omega arith) h in ground arith

Handled-any : {S : Type 0} (s : S) (b : Bool) → Handled (λ s. Unit {0}) (λ s. Unit {0}) (s, b)
Handled-any s true = tt
Handled-any s false = tt

-- A value of one of the options.
abbrev pub IsValueOf : List MenuOption → String → Type 0
IsValueOf options v =
    (k : ℕ) × (option : MenuOption) × (get_elem? options k ≡ some option) × (v ≡ option.value)

-- A radio menu with an option at least ends with the value of one of its options, or with the user's
-- quit, whatever is typed, and whatever value is inherited; it never reads past its options.
pub radio_menu-IsValueOf :
    (option : MenuOption) (options : List MenuOption) (inherited : Option (Inherited String))
    (description : String)
    → Gives
        (IsValueOf (option ∷ options))
        IsQuit
        (radio_menu (option ∷ options) inherited description)
unfolding radio_menu
radio_menu-IsValueOf option options inherited description =
    let all = option ∷ options in
    Gives-bind (OnRow (λ s c. Unit {0}) (length all)) _ _
      (record {
        at = λ presses.
            run_list-OnRow description (length options) accept_enter (λ s. Unit) (λ s c. Unit)
              IsQuit (λ s key c i row. Handled-any s (is_enter key)) refl presses tt _ tt
              (start_from-bound inherited all 0 (length all) (omega arith) (omega arith));
      })
      λ (s, c) h.
        Gives-bind (λ o. IsValueOf all o.value) _ _
          (Gives-or_raise _ (
            found-GivesIn (λ o. IsValueOf all o.value) IsQuit all c h.1 (λ k o e. (k, o, e, refl))))
          λ o v. Gives-pure o.value v

kept_if :
    (b : Bool) (o : MenuOption) (rest all : List MenuOption)
    → IsValueOf all o.value
    → All (IsValueOf all) (map (λ o. o.value) rest)
    → All (IsValueOf all) (map (λ o. o.value) (elim b [ true ↦ o ∷ rest | false ↦ rest ]))
kept_if true o rest all v h = (v, h)
kept_if false o rest all v h = h

kept-IsValueOf :
    (p : MenuOption → Bool) (all options : List MenuOption)
    → ((k : ℕ) (o : MenuOption) → get_elem? options k ≡ some o → IsValueOf all o.value)
    → All (IsValueOf all) (map (λ o. o.value) (keep p options))
kept-IsValueOf p all [] h = tt
kept-IsValueOf p all (o ∷ options) h =
    kept_if (p o) o (keep p options) all (h 0 o refl)
      (kept-IsValueOf p all options (λ k x e. h (suc k) x e))

toggled-GivesIn :
    (r : Result MenuOption) (checked : List String)
    → GivesIn (λ o. Unit {0}) IsQuit r
    → GivesIn
        (Handled (λ s. Unit {0}) (λ s. Unit {0}))
        IsQuit
        (r >>= λ option. ok (toggled option.value checked, false))
toggled-GivesIn (ok option) checked h = tt
toggled-GivesIn (err e) checked h = h

check_key-GivesIn :
    (options : List MenuOption) (checked : List String) (key : ℕ) (c : ℤ)
    → IsRow (length options) c
    → GivesIn (Handled (λ s. Unit {0}) (λ s. Unit {0})) IsQuit (check_key options checked key c)
unfolding check_key
check_key-GivesIn options checked key c row = elim (Bool-cases (eqb key key_space)) [
  | inl e ↦ rw e (
      toggled-GivesIn _ checked
        (found-GivesIn (λ o. Unit {0}) IsQuit options c row (λ k x same. tt)))
  | inr e ↦ rw e (Handled-any checked (is_enter key))
]

-- A checkbox menu with an option at least ends with values of its options alone, or with the user's
-- quit, whatever is typed, and whatever values are inherited; it never reads past its options.
pub checkbox_menu-AreValuesOf :
    (option : MenuOption) (options : List MenuOption) (inherited : Option (Inherited (List String)))
    (description : String)
    → Gives
        (All (IsValueOf (option ∷ options)))
        IsQuit
        (checkbox_menu (option ∷ options) inherited description)
unfolding checkbox_menu checked_values
checkbox_menu-AreValuesOf option options inherited description =
    let all = option ∷ options in
    Gives-bind (OnRow (λ s c. Unit {0}) (length all)) _ _
      (record {
        at = λ presses.
            run_list-OnRow description (length options) (check_key all) (λ s. Unit) (λ s c. Unit)
              IsQuit (λ s key c i row. check_key-GivesIn all s key c row) refl presses
              (inherited_values inherited) _ tt (omega arith);
      })
      λ (s, c) h.
        Gives-pure _ (kept-IsValueOf (λ o. member o.value s) all all (λ k o e. (k, o, e, refl)))
