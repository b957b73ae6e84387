-- ===== src/Tui/Entry/Characters.antt =====
-- tui/widgets.py: texts that grow and shrink by one character.
use Prim.Native.Char.{Char}
use arch_installer.Prelude.{
  ◌≡◌, refl, ap, arith, String, ◌<>◌, ◌==◌, eq_iff, printable, printable_characters, char_text_at,
  leb, and_left, true, false, Bool-cases, inl, inr, ℕ, zero, suc, ◌-◌, ◌<◌,
}
use arch_installer.Prelude.Splitting.{nil-append, cons-append}
use arch_installer.Tui.Keys.{is_printable}
use arch_installer.Tui.Entry.{without_last}

-- a text of one character
abbrev pub IsSingle : String → Type 0
IsSingle s = (c : Char) × (s ≡ String.◌∷◌ c "")

abbrev characters_in : String → ℕ
characters_in String.[] = 0
characters_in (String.◌∷◌ c s) = suc (characters_in s)

char_text_at-IsSingle : (s : String) (i : ℕ) → i < characters_in s → IsSingle (char_text_at s i)
unfolding char_text_at
char_text_at-IsSingle String.[] i h = absurd (omega arith)
char_text_at-IsSingle (String.◌∷◌ c s) zero h = (c, refl)
char_text_at-IsSingle (String.◌∷◌ c s) (suc i) h = char_text_at-IsSingle s i (omega arith)

pub printable-IsSingle : (key : ℕ) → is_printable key ≡ true → IsSingle (printable key)
unfolding printable
printable-IsSingle key h =
    rw (and_left (leb 32 key) _ h)
      (char_text_at-IsSingle printable_characters (key - 32) (ground arith))

cons-nonempty : (c : Char) (s : String) → (String.◌∷◌ c s == "") ≡ false
cons-nonempty c s = elim (Bool-cases (String.◌∷◌ c s == "")) [
  | inl e ↦ let same = (eq_iff (String.◌∷◌ c s) "").0 e in cc
  | inr e ↦ e
]

pub appended-nonempty : (s : String) (c : Char) → ((s <> String.◌∷◌ c "") == "") ≡ false
appended-nonempty String.[] c = rw (nil-append (String.◌∷◌ c "")) (cons-nonempty c "")
appended-nonempty (String.◌∷◌ d s) c =
    rw (cons-append d s (String.◌∷◌ c "")) (cons-nonempty d (s <> String.◌∷◌ c ""))

pub without_last-appended : (s : String) (c : Char) → without_last (s <> String.◌∷◌ c "") ≡ s
unfolding without_last
without_last-appended String.[] c = rw (nil-append (String.◌∷◌ c "")) refl
without_last-appended (String.◌∷◌ d s) c =
    rw (cons-append d s (String.◌∷◌ c ""))
      (rw (appended-nonempty s c) (ap (String.◌∷◌ d) (without_last-appended s c)))
