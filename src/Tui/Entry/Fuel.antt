-- ===== src/Tui/Entry/Fuel.antt =====
-- tui/widgets.py: the password loop ends by itself.
use arch_installer.Prelude.{
  ◌≡◌, refl, arith, String, ◌==◌, Bool, true, false, Option, none, some, List, [], ◌∷◌, ℕ, zero,
  suc, ◌<◌, ◌≤◌, length, if◌then◌else◌,
}
use arch_installer.Setup.Ui.{Press, Outcome, waiting, failed, ended, Ui, get_press, continue, ◌>>=◌}
use arch_installer.Setup.Frontend.{Inherited}
use arch_installer.Tui.Entry.{
  TextEntry, submitted_or, entry_loop, text_input, password_loop, password_input_with_confirm,
}

-- The presses that are left are fewer than those that were given.
abbrev pub IsShorter : {A : Type 0} → ℕ → Outcome A → Type 0
IsShorter n waiting = Unit
IsShorter n (failed e) = Unit
IsShorter n (ended a rest) = length rest < n

IsShorter-weaken : (n : ℕ) (o : Outcome String) → IsShorter n o → IsShorter (suc n) o
IsShorter-weaken n waiting h = tt
IsShorter-weaken n (failed e) h = tt
IsShorter-weaken n (ended a rest) h = omega arith

submitted_or-IsShorter :
    (o : Option String) (presses : List Press) (rest : Outcome String)
    → IsShorter (length presses) rest
    → IsShorter (suc (length presses)) (submitted_or o presses rest)
submitted_or-IsShorter none presses rest h = IsShorter-weaken (length presses) rest h
submitted_or-IsShorter (some v) presses rest h = omega arith

entry_loop-IsShorter :
    (presses : List Press) (entry : TextEntry)
    → IsShorter (length presses) (entry_loop entry presses)
unfolding entry_loop
entry_loop-IsShorter [] entry = tt
entry_loop-IsShorter (press ∷ presses) entry =
    submitted_or-IsShorter _ presses _ (entry_loop-IsShorter presses _)

text_input-IsShorter :
    (inherited : Option (Inherited String)) (required : Bool) (presses : List Press)
    → IsShorter (length presses) (text_input inherited required presses)
unfolding text_input
text_input-IsShorter inherited required presses = entry_loop-IsShorter presses _

-- two ways on that agree wherever fewer presses are left
continue-agree :
    {A B : Type 0} (n : ℕ) (o : Outcome A) (f g : A → Ui B)
    → IsShorter n o
    → ((a : A) (rest : List Press) → length rest < n → f a rest ≡ g a rest)
    → continue o f ≡ continue o g
continue-agree n waiting f g s h = refl
continue-agree n (failed e) f g s h = refl
continue-agree n (ended a rest) f g s h = h a rest s

bind-agree :
    {A B : Type 0} (m : Ui A) (f g : A → Ui B) (presses : List Press)
    → IsShorter (length presses) (m presses)
    → ((a : A) (rest : List Press) → length rest < length presses → f a rest ≡ g a rest)
    → (m >>= f) presses ≡ (m >>= g) presses
unfolding ◌>>=◌
bind-agree m f g presses s h = continue-agree (length presses) (m presses) f g s h

get_press-agree :
    {B : Type 0} (f g : Press → Ui B) (rest : List Press)
    → ((press : Press) (left : List Press)
        → length left ≤ length rest
        → f press left ≡ g press left)
    → (get_press >>= f) rest ≡ (get_press >>= g) rest
unfolding get_press ◌>>=◌
get_press-agree f g [] h = refl
get_press-agree f g (press ∷ left) h = h press left (omega arith)

if_agree :
    {A : Type 0} (b : Bool) (m f g : Ui A) (rest : List Press)
    → f rest ≡ g rest
    → (if b then m else f) rest ≡ (if b then m else g) rest
if_agree true m f g rest e = refl
if_agree false m f g rest e = e

fuel-agree :
    (a b : ℕ) (presses : List Press)
    → length presses < a
    → length presses < b
    → password_loop a presses ≡ password_loop b presses
unfolding password_loop
fuel-agree zero b presses p q = absurd (omega arith)
fuel-agree (suc a) zero presses p q = absurd (omega arith)
fuel-agree (suc a) (suc b) presses p q =
    bind-agree (text_input none true) _ _ presses (text_input-IsShorter none true presses)
      λ password rest s.
        bind-agree (text_input none true) _ _ rest (text_input-IsShorter none true rest)
          λ confirm later s'. if_agree (password == confirm) _ _ _ later (
            get_press-agree _ _ later
              λ press left l. fuel-agree a b left (omega arith) (omega arith))

-- The password loop runs to its own end for every sequence of keys: with any fuel beyond the number of
-- presses it does what it does with the fuel that it is given.
password_loop-fuel :
    (fuel : ℕ) (presses : List Press)
    → length presses < fuel
    → password_loop fuel presses ≡ password_input_with_confirm presses
unfolding password_input_with_confirm
password_loop-fuel fuel presses h = fuel-agree fuel (suc (length presses)) presses h (omega arith)
