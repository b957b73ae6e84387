-- ===== src/Tui/Lists/Layout.antt =====
-- tui/widgets.py: the rows that `_draw_list` shows.
use arch_installer.Prelude.{arith, String, true, ℕ, ◌+◌, ◌≤◌, ◌<◌, pos}
use arch_installer.Tui.Keys.{help_row_offset}
use arch_installer.Tui.Lists.{visible_rows, first_row, scroll, scroll_to}

visible_rows-positive : (description : String) (max_y : ℕ) → 0 < visible_rows description max_y
unfolding visible_rows
visible_rows-positive description max_y = ground arith

rows-fit :
    (description : String) (max_y : ℕ)
    → first_row description + help_row_offset + 3 ≤ max_y
    → first_row description + visible_rows description max_y + help_row_offset + 2 ≤ max_y
unfolding visible_rows
rows-fit description max_y h = ground arith

-- On a screen of any height the row under the cursor is among the rows that are shown, and a screen
-- that has room for a row below the title shows its rows above the status line.
pub cursor_is_shown :
    (description : String) (max_y cursor : ℕ)
    → (scroll true (visible_rows description max_y) (pos cursor) ≤ cursor)
      × (cursor
          < scroll true (visible_rows description max_y) (pos cursor)
            + visible_rows description max_y)
      × (first_row description + help_row_offset + 3 ≤ max_y
          → first_row description + visible_rows description max_y + help_row_offset + 2 ≤ max_y)
unfolding scroll scroll_to
cursor_is_shown description max_y cursor =
    let positive = visible_rows-positive description max_y in
    (omega arith, omega (arith, positive), rows-fit description max_y)
