-- ===== src/Tui/Rows.antt =====
-- tui/widgets.py: the texts of the rows and hints.
use Prim.Native.Char.{code}
use Prim.Native.String.{count}
use arch_installer.Prelude.{
  String, ◌<>◌, ◌==◌, Bool, true, false, Option, none, some, List, [], ◌∷◌, ◌++◌, ℕ, zero, suc, ◌-◌,
  leb, eqb, member, if◌then◌else◌,
}
use arch_installer.Setup.Frontend.{Inherited}
use arch_installer.Tui.Menus.{MenuOption, Toggle, is_inherited}

pub data RowStyle : Type 0 where
  plain marked heading : RowStyle

pub record ListRow : Type 0 where
  pub text : String
  pub style : RowStyle

unfoldable pub inherited_tag : {A : Type 0} → Option (Inherited A) → String
inherited_tag none = ""
inherited_tag (some inherited) = "  (inherited from " <> inherited.source <> ")"

spaces : ℕ → String
spaces zero = ""
spaces (suc n) = " " <> spaces n

-- `s.ljust(width)`
unfoldable pub pad_right : ℕ → String → String
unfolding spaces
pad_right width s = s <> spaces (width - count s)

-- `s[:n]`
unfoldable pub prefix : ℕ → String → String
prefix zero s = ""
prefix (suc n) String.[] = ""
prefix (suc n) (String.◌∷◌ c s) = String.◌∷◌ c (prefix n s)

abbrev pub summary_value_width : ℕ
summary_value_width = 32

unfoldable pub fitted : String → String
unfolding pad_right prefix
fitted value =
    if leb (count value) summary_value_width
    then pad_right summary_value_width value
    else prefix (summary_value_width - 1) value <> "…"

-- `label.partition(".")`, none where there is no dot
unfoldable pub parted : String → Option (String × String)
parted String.[] = none
parted (String.◌∷◌ c s) = if eqb (code c) 46 then some ("", s) else elim (parted s) [
  | none ↦ none
  | some (group, field_name) ↦ some (String.◌∷◌ c group, field_name)
]

-- the rows of one item, with the group that is open before it
abbrev pub item_rows :
    Option (String × String) → String → String → String → String → String × List ListRow
item_rows none current_group label value source = (
  current_group,
  record {
    text = "  " <> pad_right 27 label <> " " <> fitted value <> " " <> source;
    style = RowStyle.plain;
  }
      ∷ [],
)
item_rows (some (group, name)) current_group label value source =
    let row : ListRow = record {
      text = "    " <> pad_right 25 name <> " " <> fitted value <> " " <> source;
      style = RowStyle.plain;
    } in
    (
      group,
      (if group == current_group
          then row ∷ []
          else record { text = "  [" <> group <> "]"; style = RowStyle.heading } ∷ (row ∷ [])),
    )

unfoldable pub summary_rows : String → List (String × String × String) → List ListRow
summary_rows current_group [] = []
summary_rows current_group ((label, value, source) ∷ items) =
    let (group, rows) = item_rows (parted label) current_group label value source in
    rows ++ summary_rows group items

unfoldable pub inherited_hint : Inherited String → String → Bool → String
inherited_hint inherited typed masked =
    let shown = if masked then "(hidden)" else inherited.value in
    let origin = "Inherited from " <> inherited.source <> ": " <> shown in
    if typed == ""
    then origin <> "  (Enter keeps it, typing replaces it)"
    else origin <> "  (overridden, Esc restores it)"

-- the rows of the menus
unfoldable pub radio_row : Option (Inherited String) → MenuOption → Bool → ListRow
radio_row inherited option has_cursor = record {
  text =
      (if has_cursor then " ▸ " else "   ")
      <> option.label
      <> (if is_inherited inherited option then inherited_tag inherited else "");
  style = RowStyle.plain;
}

unfoldable pub checkbox_row :
    List String → Option (Inherited (List String)) → List String → MenuOption → ListRow
checkbox_row inherited_values inherited checked option = record {
  text =
      " "
      <> (if member option.value checked then "[✓]" else "[ ]")
      <> " "
      <> option.label
      <> (if member option.value inherited_values then inherited_tag inherited else "");
  style = if member option.value checked then RowStyle.marked else RowStyle.plain;
}

abbrev pub switch_text : Option Bool → String
switch_text none = "  ? "
switch_text (some true) = " ON "
switch_text (some false) = " OFF"

-- `state == inherited`
abbrev pub state_is : Option Bool → Bool → Bool
state_is none b = false
state_is (some true) b = b
state_is (some false) b = if b then false else true

abbrev pub toggle_origin : Option (Inherited Bool) → Option Bool → String
toggle_origin none none = "  (not set, press Space)"
toggle_origin none (some state) = ""
toggle_origin (some inherited) state =
    if state_is state inherited.value
    then inherited_tag (some inherited)
    else "  (inherited from "
      <> inherited.source
      <> ": "
      <> (if inherited.value then "ON" else "OFF")
      <> ")"

unfoldable pub toggle_line : Toggle → Option Bool → String
unfolding inherited_tag
toggle_line toggle state =
    "  [" <> switch_text state <> "]  " <> toggle.label <> toggle_origin toggle.inherited state
