-- ===== src/Tui/Entry/Editing.antt =====
-- tui/widgets.py: the text field against a plain specification, a stack of typed keys.
use arch_installer.Prelude.{
  ◌≡◌, refl, ◌∙◌, String, ◌<>◌, ◌==◌, printable, Bool, true, false, Bool-cases, ◌&&◌, inl, inr,
  Option, none, some, List, [], ◌∷◌, ℕ, eqb, if◌then◌else◌,
}
use arch_installer.Setup.Ui.{Press, Outcome, waiting, ended, Ui}
use arch_installer.Setup.Frontend.{Inherited}
use arch_installer.Tui.Keys.{key_escape, is_enter, is_backspace, is_printable}
use arch_installer.Tui.Entry.Characters.{
  printable-IsSingle, appended-nonempty, without_last-appended,
}
use arch_installer.Tui.Entry.{
  TextEntry, without_last, inherited_text, submit, press_key, submitted_or, entry_loop, text_input,
}

-- The text of the keys that are left, the newest first.
abbrev pub text_of : List ℕ → String
text_of [] = ""
text_of (key ∷ keys) = text_of keys <> printable key

-- What a key does to the keys that are left, where it does not end the field.
abbrev pub edit_keys : List ℕ → ℕ → List ℕ
edit_keys keys key =
    if eqb key key_escape
    then []
    else if is_backspace key
    then elim keys [ [] ↦ [] | last ∷ earlier ↦ earlier ]
    else if is_printable key
    then key ∷ keys
    else keys

-- What Enter gives.
abbrev pub entered : Option (Inherited String) → List ℕ → String
entered inherited [] = inherited_text inherited
entered inherited (key ∷ keys) = text_of (key ∷ keys)

abbrev pub accepted : String → Bool → Bool
accepted value required = elim (value == "") [
  | true ↦ elim required [ true ↦ false | false ↦ true ]
  | false ↦ true
]

-- The specification: the field ends at the first Enter whose text may be taken.
abbrev pub reference : Option (Inherited String) → Bool → List ℕ → Ui String
reference inherited required keys [] = waiting
reference inherited required keys (press ∷ presses) =
    let given = reference inherited required keys presses in
    let edited = reference inherited required (edit_keys keys press.key) presses in
    if is_enter press.key
    then (if accepted (entered inherited keys) required
        then ended (entered inherited keys) presses
        else given)
    else edited

abbrev ArePrintable : List ℕ → Type 0
ArePrintable [] = Unit
ArePrintable (key ∷ keys) = (is_printable key ≡ true) × ArePrintable keys

pub typed-nonempty :
    (key : ℕ) (keys : List ℕ) → is_printable key ≡ true → (text_of (key ∷ keys) == "") ≡ false
typed-nonempty key keys h =
    let (c, e) = printable-IsSingle key h in rw e (appended-nonempty (text_of keys) c)

typed-without_last :
    (key : ℕ) (keys : List ℕ)
    → is_printable key ≡ true
    → without_last (text_of (key ∷ keys)) ≡ text_of keys
typed-without_last key keys h =
    let (c, e) = printable-IsSingle key h in rw e (without_last-appended (text_of keys) c)

erased-text :
    (keys : List ℕ)
    → ArePrintable keys
    → without_last (text_of keys) ≡ text_of (elim keys [ [] ↦ [] | last ∷ earlier ↦ earlier ])
unfolding without_last
erased-text [] h = refl
erased-text (key ∷ keys) h = typed-without_last key keys h.0

erased-ArePrintable :
    (keys : List ℕ)
    → ArePrintable keys
    → ArePrintable (elim keys [ [] ↦ [] | last ∷ earlier ↦ earlier ])
erased-ArePrintable [] h = tt
erased-ArePrintable (key ∷ keys) h = h.1

module _ (inherited : Option (Inherited String)) (required : Bool) where
  abbrev entry_of : String → String → TextEntry
  entry_of typed error = record {
    inherited = inherited;
    required = required;
    typed = typed;
    error = error;
  }

  value-entered :
      (keys : List ℕ)
      → ArePrintable keys
      → (if text_of keys == "" then inherited_text inherited else text_of keys)
        ≡ entered inherited keys
  value-entered [] h = refl
  value-entered (key ∷ keys) h = rw (typed-nonempty key keys h.0) refl

  -- what follows Enter, for a value that is refused or not
  abbrev after_enter : Bool → String → TextEntry → List Press → Outcome String
  after_enter refused value entry presses = elim refused [
    | true ↦ entry_loop (entry_of entry.typed "This field is required.") presses
    | false ↦ ended value presses
  ]

  submitted-after_enter :
      (refused : Bool) (value typed error : String) (presses : List Press)
      (r : TextEntry × Option String)
      → r
        ≡ if◌then◌else◌ {A = TextEntry × Option String} refused
            (entry_of typed "This field is required.", none)
            (entry_of typed error, some value)
      → submitted_or r.1 presses (entry_loop r.0 presses)
        ≡ after_enter refused value (entry_of typed error) presses
  submitted-after_enter true value typed error presses r e = rw e refl
  submitted-after_enter false value typed error presses r e = rw e refl

  loop-enter :
      (typed error : String) (key : ℕ) (presses : List Press) (rows : ℕ)
      → is_enter key ≡ true
      → entry_loop (entry_of typed error) (record { key = key; screen_rows = rows } ∷ presses) ≡ (
          let value = if typed == "" then inherited_text inherited else typed in
          after_enter (value == "" && required) value (entry_of typed error) presses)
  unfolding entry_loop press_key submit
  loop-enter typed error key presses rows h = rw h (
      submitted-after_enter
        ((if typed == "" then inherited_text inherited else typed) == "" && required)
        (if typed == "" then inherited_text inherited else typed) typed error presses _ refl)

  after_enter-accepted :
      (b r : Bool) (value typed error : String) (presses : List Press) (given : Outcome String)
      → ((e : String) → entry_loop (entry_of typed e) presses ≡ given)
      → after_enter (b && r) value (entry_of typed error) presses ≡ (
          if elim b [ true ↦ elim r [ true ↦ false | false ↦ true ] | false ↦ true ]
          then ended value presses
          else given)
  after_enter-accepted false r value typed error presses given h = refl
  after_enter-accepted true true value typed error presses given h = h "This field is required."
  after_enter-accepted true false value typed error presses given h = refl

  -- the edit that a key other than Enter makes
  loop-edit :
      (keys : List ℕ) (error : String) (key : ℕ) (presses : List Press) (rows : ℕ)
      → ArePrintable keys
      → is_enter key ≡ false
      → ((error' : String) × (entry_loop
              (entry_of (text_of keys) error)
              (record { key = key; screen_rows = rows } ∷ presses)
            ≡ entry_loop (entry_of (text_of (edit_keys keys key)) error') presses))
        × ArePrintable (edit_keys keys key)
  unfolding entry_loop press_key
  loop-edit keys error key presses rows p h = rw h (elim (Bool-cases (eqb key key_escape)) [
    | inl e ↦ rw e (("", refl), tt)
    | inr e ↦ rw e (elim (Bool-cases (is_backspace key)) [
      | inl b ↦ rw b (("", rw (erased-text keys p) refl), erased-ArePrintable keys p)
      | inr b ↦ rw b (elim (Bool-cases (is_printable key)) [
        | inl t ↦ rw t (("", refl), (t, p))
        | inr t ↦ rw t ((error, refl), p)
      ])
    ])
  ])

  loop-reference :
      (presses : List Press) (keys : List ℕ) (error : String)
      → ArePrintable keys
      → entry_loop (entry_of (text_of keys) error) presses
        ≡ reference inherited required keys presses
  unfolding entry_loop
  loop-reference [] keys error p = refl
  loop-reference (press ∷ presses) keys error p = elim (Bool-cases (is_enter press.key)) [
    | inl e ↦
        loop-enter (text_of keys) error press.key presses press.screen_rows e
        ∙ rw e (
            rw (value-entered keys p) (
              after_enter-accepted (entered inherited keys == "") required (entered inherited keys)
                (text_of keys) error presses (reference inherited required keys presses)
                (λ e'. loop-reference presses keys e' p)))
    | inr e ↦
        let ((error', same), q) = loop-edit keys error press.key presses press.screen_rows p e in
        same ∙ rw e (loop-reference presses (edit_keys keys press.key) error' q)
  ]

-- The text field behaves as its specification for every sequence of keys: it keeps the printable keys
-- that no later backspace or escape takes away, and ends at the first Enter with their text, or, where
-- no key is left, with the inherited one; an Enter on an empty text of a required field is passed over.
pub text_input-reference :
    (inherited : Option (Inherited String)) (required : Bool) (presses : List Press)
    → text_input inherited required presses ≡ reference inherited required [] presses
unfolding text_input
text_input-reference inherited required presses = loop-reference inherited required presses [] "" tt
