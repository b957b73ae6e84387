-- ===== src/Tui/Entry/Ending.antt =====
-- tui/widgets.py: the text field can always be ended.
use arch_installer.Prelude.{
  ◌≡◌, refl, sym, subst, arith, String, ◌==◌, Bool, true, false, Option, List, [], ◌∷◌, ◌++◌, ℕ,
  eqb, if◌then◌else◌,
}
use arch_installer.Setup.Ui.{Press, Outcome, waiting, failed, ended}
use arch_installer.Setup.Frontend.{Inherited}
use arch_installer.Tui.Keys.{key_escape, is_enter, is_backspace, is_printable}
use arch_installer.Tui.Entry.{text_input}
use arch_installer.Tui.Entry.Editing.{
  reference, accepted, entered, edit_keys, text_of, typed-nonempty, text_input-reference,
}

abbrev pub HasEnded : Outcome String → Type 0
HasEnded waiting = ⊥
HasEnded (failed e) = ⊥
HasEnded (ended v presses) = Unit

if_HasEnded :
    (b : Bool) (m n : Outcome String) → HasEnded m → HasEnded n → HasEnded (if b then m else n)
if_HasEnded true m n h k = h
if_HasEnded false m n h k = k

ended_if :
    (b : Bool) (v : String) (presses : List Press) (o : Outcome String)
    → b ≡ true
    → HasEnded (if b then ended v presses else o)
ended_if b v presses o h = rw h tt

accepted-nonempty :
    (value : String) (required : Bool) → (value == "") ≡ false → accepted value required ≡ true
accepted-nonempty value required h = rw (h, accepted) refl

printable-edit :
    (keys : List ℕ) (key : ℕ) → is_printable key ≡ true → edit_keys keys key ≡ key ∷ keys
printable-edit keys key h =
    let e : eqb key key_escape ≡ false = ground arith in
    let b : is_backspace key ≡ false = ground arith in rw e (rw b (rw h refl))

module _ (inherited : Option (Inherited String)) (required : Bool) (last enter : Press)
    (p : is_printable last.key ≡ true) (e : is_enter enter.key ≡ true) where
  enter-HasEnded :
      (keys : List ℕ) → HasEnded (reference inherited required (last.key ∷ keys) (enter ∷ []))
  enter-HasEnded keys = rw e (
      ended_if (accepted (text_of (last.key ∷ keys)) required) _ [] waiting
        (accepted-nonempty (text_of (last.key ∷ keys)) required (typed-nonempty last.key keys p)))

  last-HasEnded : (keys : List ℕ) → HasEnded (reference inherited required keys (last ∷ enter ∷ []))
  last-HasEnded keys =
      let n : is_enter last.key ≡ false = ground arith in
      rw n (rw (printable-edit keys last.key p) (enter-HasEnded keys))

  reference-HasEnded :
      (before : List Press) (keys : List ℕ)
      → HasEnded (reference inherited required keys (before ++ (last ∷ enter ∷ [])))
  reference-HasEnded [] keys = last-HasEnded keys
  reference-HasEnded (press ∷ before) keys =
      if_HasEnded (is_enter press.key) _ _
        (if_HasEnded (accepted (entered inherited keys) required)
          (ended (entered inherited keys) (before ++ (last ∷ enter ∷ []))) _ tt
          (reference-HasEnded before keys))
        (reference-HasEnded before (edit_keys keys press.key))

  -- Whatever was typed into a text field before, a printable key and then Enter end it, if nothing did
  -- earlier: no sequence of keys leaves the user caught in it.
  pub text_input-HasEnded :
      (before : List Press)
      → HasEnded (text_input inherited required (before ++ (last ∷ enter ∷ [])))
  text_input-HasEnded before =
      subst HasEnded (sym (text_input-reference inherited required (before ++ (last ∷ enter ∷ []))))
        (reference-HasEnded before [])
