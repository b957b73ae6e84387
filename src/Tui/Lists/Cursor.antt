-- ===== src/Tui/Lists/Cursor.antt =====
-- tui/widgets.py: where the cursor of `run_list` can stand, and which rows are shown with it.
use arch_installer.Prelude.{
  ◌≡◌, arith, String, Bool, true, false, Option, none, some, List, [], ◌∷◌, ℕ, zero, suc, ◌+◌, ◌<◌,
  eqb, ℤ, pos, negsuc, ◌+ℤ◌, if◌then◌else◌,
}
use arch_installer.Errors.{Error, keyboard_interrupt, Result, ok, err}
use arch_installer.Setup.Ui.{Press, Outcome, failed}
use arch_installer.Setup.Ui.Ends.{EndsIn, GivesIn}
use arch_installer.Tui.Keys.{key_up, key_down, key_q}
use arch_installer.Tui.Lists.{
  moved, last_position, visible_rows, handled, run_list, last_of, min_ℤ, max_ℤ,
}

-- a row of a list of the given length
abbrev pub IsRow : ℕ → ℤ → Type 0
IsRow count (pos k) = k < count
IsRow count (negsuc k) = ⊥

-- The user gave up with `q`.
abbrev pub IsQuit : Error → Type 0
IsQuit e = e ≡ keyboard_interrupt "user quit"

-- a condition that holds of a value if there is one
abbrev pub IfSome : {A : Type 0} → (A → Type 0) → Option A → Type 0
IfSome P none = Unit
IfSome P (some a) = P a

previous_lem : (k : ℕ) → (pos (suc k) +ℤ negsuc 0) ≡ pos k
unfolding ◌+ℤ◌
previous_lem k = ground arith

next_lem : (k : ℕ) → (pos k +ℤ pos 1) ≡ pos (k + 1)
unfolding ◌+ℤ◌
next_lem k = ground arith

up-IsRow : (k count : ℕ) → k < count → IsRow count (max_ℤ (pos k +ℤ negsuc 0) (pos 0))
unfolding ◌+ℤ◌
up-IsRow zero count h = h
up-IsRow (suc k) count h = rw (previous_lem k) (ground arith)

down-IsRow :
    (k n : ℕ) → k < suc n → IsRow (suc n) (min_ℤ (pos k +ℤ pos 1) (pos (suc n) +ℤ negsuc 0))
down-IsRow k n h = rw (next_lem k) (rw (previous_lem n) (ground arith))

if_IfSome :
    (P : ℤ → Type 0) (a b : Bool) (x y : ℤ)
    → P x
    → P y
    → IfSome P (if a then some x else if b then some y else none)
if_IfSome P true b x y p q = p
if_IfSome P false true x y p q = q
if_IfSome P false false x y p q = tt

moved-IsRow :
    (key : ℕ) (cursor : ℤ) (n visible : ℕ)
    → IsRow (suc n) cursor
    → IfSome (IsRow (suc n)) (moved key cursor (last_position true (suc n) visible))
unfolding moved last_position ◌+ℤ◌
moved-IsRow key (negsuc k) n visible h = absurd h
moved-IsRow key (pos k) n visible h =
    if_IfSome (IsRow (suc n)) (eqb key key_up) (eqb key key_down) _ _ (up-IsRow k (suc n) h)
      (down-IsRow k n h)

-- what a key handler must give: the state after an accepted key, or the state that the list goes on with
abbrev pub Handled : {S : Type 0} → (S → Type 0) → (S → Type 0) → S × Bool → Type 0
Handled I A (state, true) = A state
Handled I A (state, false) = I state

abbrev pub OnRow : {S : Type 0} → (S → ℤ → Type 0) → ℕ → S × ℤ → Type 0
OnRow A count (state, cursor) = A state cursor × IsRow count cursor

module _ {S : Type 0} (description : String) (n : ℕ) (handle_key : S → ℕ → ℤ → Result (S × Bool))
    (I : S → Type 0) (A : S → ℤ → Type 0) (X : Error → Type 0)
    (keys : (state : S) (key : ℕ) (cursor : ℤ)
      → I state
      → IsRow (suc n) cursor
      → GivesIn (Handled I (λ s. A s cursor)) X (handle_key state key cursor))
    (quits : X (keyboard_interrupt "user quit")) where
  if_EndsIn :
      (b : Bool) (o : Outcome (S × ℤ))
      → EndsIn (OnRow A (suc n)) X o
      → EndsIn (OnRow A (suc n)) X (if b then failed (keyboard_interrupt "user quit") else o)
  if_EndsIn true o h = quits
  if_EndsIn false o h = h

  handled-EndsIn :
      (r : Result (S × Bool)) (press : Press) (cursor : ℤ) (presses : List Press)
      (rest : S → Outcome (S × ℤ))
      → IsRow (suc n) cursor
      → GivesIn (Handled I (λ s. A s cursor)) X r
      → ((s : S) → I s → EndsIn (OnRow A (suc n)) X (rest s))
      → EndsIn
          (OnRow A (suc n))
          X
          (handled description true (suc n) handle_key r press cursor presses rest)
  handled-EndsIn (err e) press cursor presses rest row h k = h
  handled-EndsIn (ok (state, true)) press cursor presses rest row h k = (h, row)
  handled-EndsIn (ok (state, false)) press cursor presses rest row h k =
      if_EndsIn (eqb press.key key_q) (rest state) (k state h)

  step-EndsIn :
      (o : Option ℤ) (go : ℤ → Outcome (S × ℤ)) (other : Outcome (S × ℤ))
      → IfSome (IsRow (suc n)) o
      → ((c : ℤ) → IsRow (suc n) c → EndsIn (OnRow A (suc n)) X (go c))
      → EndsIn (OnRow A (suc n)) X other
      → EndsIn (OnRow A (suc n)) X (elim o [ some next ↦ go next | none ↦ other ])
  step-EndsIn none go other m h k = k
  step-EndsIn (some c) go other m h k = h c m

  -- From a row of the list the cursor stays on its rows, on a screen of any height and any changes of it.
  pub run_list-OnRow :
      (presses : List Press) (state : S) (cursor : ℤ)
      → I state
      → IsRow (suc n) cursor
      → EndsIn
          (OnRow A (suc n))
          X
          (run_list description true (suc n) handle_key state cursor presses)
  unfolding run_list
  run_list-OnRow [] state cursor i row = tt
  run_list-OnRow (press ∷ presses) state cursor i row =
      step-EndsIn (moved press.key cursor (last_of description true (suc n) handle_key press)) _ _
        (moved-IsRow press.key cursor n (visible_rows description press.screen_rows) row)
        (λ c r. run_list-OnRow presses state c i r)
        (handled-EndsIn (handle_key state press.key cursor) press cursor presses _ row
          (keys state press.key cursor i row) (λ s j. run_list-OnRow presses s cursor j row))
