-- ===== src/Tui/Keys.antt =====
-- tui/widgets.py: the keys by their codes, those of curses included, and the layout of the screen.
use arch_installer.Prelude.{Bool, ◌||◌, ◌&&◌, ℕ, eqb, leb}

abbrev pub key_down : ℕ
key_down = 258

abbrev pub key_up : ℕ
key_up = 259

abbrev pub key_escape : ℕ
key_escape = 27

abbrev pub key_tab : ℕ
key_tab = 9

abbrev pub key_space : ℕ
key_space = 32

abbrev pub key_q : ℕ
key_q = 113

-- `key in ENTER_KEYS`: `curses.KEY_ENTER`, 10 and 13
abbrev pub is_enter : ℕ → Bool
is_enter key = eqb key 343 || eqb key 10 || eqb key 13

-- `key in BACKSPACE_KEYS`: `curses.KEY_BACKSPACE`, 127 and 8
abbrev pub is_backspace : ℕ → Bool
is_backspace key = eqb key 263 || eqb key 127 || eqb key 8

-- `key in PRINTABLE_KEYS`
abbrev pub is_printable : ℕ → Bool
is_printable key = leb 32 key && leb key 126

abbrev pub content_start : ℕ
content_start = 4

abbrev pub help_row_offset : ℕ
help_row_offset = 2
