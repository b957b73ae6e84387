-- ===== src/Tui/Lists.antt =====
-- tui/widgets.py: `run_list`, the one list engine, and the rows that `_draw_list` shows. The cursor is an
-- `int`, since a list without rows would take it below zero.
pub mod Cursor
pub mod Layout
use arch_installer.Prelude.{
  String, ◌==◌, Bool, true, false, Option, none, some, List, [], ◌∷◌, ℕ, suc, ◌+◌, ◌-◌, leb, ltb,
  eqb, ℤ, pos, negsuc, ◌+ℤ◌, ltb_ℤ, length, get_elem?, if◌then◌else◌,
}
use arch_installer.Errors.{keyboard_interrupt, index_error, Result, ok, err}
use arch_installer.Setup.Ui.{Press, Outcome, waiting, failed, ended, Ui}
use arch_installer.Tui.Keys.{key_up, key_down, key_q, content_start, help_row_offset}

abbrev pub min_ℤ : ℤ → ℤ → ℤ
min_ℤ a b = if ltb_ℤ b a then b else a

abbrev pub max_ℤ : ℤ → ℤ → ℤ
max_ℤ a b = if ltb_ℤ a b then b else a

abbrev pub max_ℕ : ℕ → ℕ → ℕ
max_ℕ a b = if ltb a b then b else a

unfoldable pub first_row : String → ℕ
first_row description = if description == "" then content_start else content_start + 1

-- `max(1, status_row - 1 - first_row)`: at least one row, also on a screen that is too small
unfoldable pub visible_rows : String → ℕ → ℕ
unfolding first_row
visible_rows description max_y = max_ℕ 1 (max_y - help_row_offset - 1 - 1 - first_row description)

-- `max(0, cursor - visible_rows + 1)`
unfoldable pub scroll_to : ℕ → ℤ → ℕ
scroll_to visible (pos cursor) = suc cursor - visible
scroll_to visible (negsuc n) = 0

-- the index of the first row that is shown
unfoldable pub scroll : Bool → ℕ → ℤ → ℕ
unfolding scroll_to
scroll true visible cursor = scroll_to visible cursor
scroll false visible (pos cursor) = cursor
scroll false visible (negsuc n) = 0

unfoldable pub last_position : Bool → ℕ → ℕ → ℤ
last_position true row_count visible = pos row_count +ℤ negsuc 0
last_position false row_count visible = pos (row_count - visible)

-- the cursor after an arrow key, none for another key
unfoldable pub moved : ℕ → ℤ → ℤ → Option ℤ
moved key cursor last =
    if eqb key key_up
    then some (max_ℤ (cursor +ℤ negsuc 0) (pos 0))
    else if eqb key key_down
    then some (min_ℤ (cursor +ℤ pos 1) last)
    else none

-- `rows[index]`, from the end for a negative index
unfoldable pub item_at : {A : Type 0} → List A → ℤ → Option A
item_at xs (pos i) = get_elem? xs i
item_at xs (negsuc n) = if leb (suc n) (length xs) then get_elem? xs (length xs - suc n) else none

unfoldable pub found_or_raise : {A : Type 0} → Option A → Result A
found_or_raise none = err index_error
found_or_raise (some x) = ok x

module _ {S : Type 0} (description : String) (show_cursor : Bool) (row_count : ℕ)
    (handle_key : S → ℕ → ℤ → Result (S × Bool)) where
  -- what follows a key that is no arrow
  abbrev pub handled :
      Result (S × Bool) → Press → ℤ → List Press → (S → Outcome (S × ℤ)) → Outcome (S × ℤ)
  handled (err e) press cursor presses rest = failed e
  handled (ok (state, true)) press cursor presses rest = ended (state, cursor) presses
  handled (ok (state, false)) press cursor presses rest =
      if eqb press.key key_q then failed (keyboard_interrupt "user quit") else rest state

  abbrev pub last_of : Press → ℤ
  last_of press = last_position show_cursor row_count (visible_rows description press.screen_rows)

  -- the state and the cursor where a key was accepted
  unfoldable pub run_list : S → ℤ → Ui (S × ℤ)
  run_list state cursor [] = waiting
  run_list state cursor (press ∷ presses) = elim (moved press.key cursor (last_of press)) [
    | some next ↦ run_list state next presses
    | none ↦
        handled (handle_key state press.key cursor) press cursor presses
          (λ state'. run_list state' cursor presses)
  ]
