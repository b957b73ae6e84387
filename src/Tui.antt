-- ===== src/Tui.antt =====
-- tui/: the widgets and the curses front-end. What is drawn is left out, but for the texts and the rows.
pub mod Keys
pub mod Lists
pub mod Menus
pub mod Entry
pub mod Rows
pub mod Curses
