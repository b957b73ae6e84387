-- ===== src/Config/SecretsFile/Lines.antt =====
-- config/secrets_file.py: which lines of a config.yaml an encrypted password changes.
use Prim.Native.Char.{code}
use arch_installer.Prelude.{
  ◌≡◌, refl, ap, ◌⊎◌, inl, inr, String, ◌<>◌, ◌==◌, Bool, true, false, none, some, List, [], ◌∷◌,
  ◌++◌, All, Bool-cases, if◌then◌else◌,
}
use package.text.Mathlib.TextPositions.{starts_with-append}
use arch_installer.Prelude.Splitting.{nil-append, cons-append}
use arch_installer.Config.SecretsFile.{
  is_blank, indent_of, without_indent, is_entry, entry, replace_first, without_empty_end,
  or_empty_line, cons_unless_empty,
}

abbrev pub Fails : (String → Bool) → String → Type 0
Fails test line = test line ≡ false

-- the lines up to the first that passes the test
pub record Split (test : String → Bool) (lines : List String) : Type 0 where
  pub before : List String
  pub line : String
  pub after : List String
  pub joins : lines ≡ before ++ (line ∷ after)
  pub passes : test line ≡ true
  pub fails : All (Fails test) before

module _ (test : String → Bool) where
  pub first_passing : (lines : List String) → All (Fails test) lines ⊎ Split test lines
  first_passing [] = inl tt
  first_passing (line ∷ lines) = elim (Bool-cases (test line)) [
    | inl passes ↦ inr (record {
      before = [];
      line = line;
      after = lines;
      joins = refl;
      passes = passes;
      fails = tt;
    })
    | inr fails ↦ elim (first_passing lines) [
      | inl all ↦ inl (fails, all)
      | inr s ↦ inr (record {
        before = line ∷ s.before;
        line = s.line;
        after = s.after;
        joins = ap (λ ls. line ∷ ls) s.joins;
        passes = s.passes;
        fails = (fails, s.fails);
      })
    ]
  ]

  module _ (new : String → List String) where
    pub replace_first-none :
        (lines : List String) → All (Fails test) lines → replace_first test new lines ≡ none
    unfolding replace_first
    replace_first-none [] h = refl
    replace_first-none (line ∷ lines) (fails, h) = rw fails (rw (replace_first-none lines h) refl)

    pub replace_first-append :
        (before : List String) (line : String) (after : List String)
        → All (Fails test) before
        → test line ≡ true
        → replace_first test new (before ++ (line ∷ after)) ≡ some (before ++ (new line ++ after))
    unfolding replace_first
    replace_first-append [] line after h passes = rw passes refl
    replace_first-append (l ∷ before) line after (fails, h) passes =
        rw fails (rw (replace_first-append before line after h passes) refl)

cons-All :
    (P : String → Type 0) (line : String) (lines : List String)
    → P line
    → All P lines
    → All P (cons_unless_empty line lines)
cons-All P line [] p h = elim (line == "") as (λ b. All P (if b then [] else line ∷ [])) [
  | true ↦ tt
  | false ↦ (p, tt)
]
cons-All P line (next ∷ lines) p h = (p, h)

pub without_empty_end-All :
    (P : String → Type 0) (lines : List String) → All P lines → All P (without_empty_end lines)
unfolding without_empty_end
without_empty_end-All P [] h = tt
without_empty_end-All P (line ∷ lines) (p, h) =
    cons-All P line (without_empty_end lines) p (without_empty_end-All P lines h)

pub or_empty_line-All :
    (P : String → Type 0) (lines : List String) → P "" → All P lines → All P (or_empty_line lines)
or_empty_line-All P [] p h = (p, tt)
or_empty_line-All P (line ∷ lines) p h = h

-- the text is not empty and does not begin with a blank
abbrev pub IsSolid : String → Type 0
IsSolid String.[] = ⊥
IsSolid (String.◌∷◌ c s) = is_blank (code c) ≡ false

IsSolid-append : (s t : String) → IsSolid s → IsSolid (s <> t)
IsSolid-append String.[] t h = elim h [ ]
IsSolid-append (String.◌∷◌ c s) t h = rw (cons-append c s t) h

indent_of-solid : (t : String) → IsSolid t → indent_of t ≡ ""
unfolding indent_of
indent_of-solid String.[] h = elim h [ ]
indent_of-solid (String.◌∷◌ c s) h = rw h refl

without_indent-solid : (t : String) → IsSolid t → without_indent t ≡ t
unfolding without_indent
without_indent-solid String.[] h = elim h [ ]
without_indent-solid (String.◌∷◌ c s) h = rw h refl

-- a text of blanks alone
abbrev pub IsIndent : String → Type 0
IsIndent String.[] = Unit {0}
IsIndent (String.◌∷◌ c s) = (is_blank (code c) ≡ true) × IsIndent s

pub indent_of-append : (s t : String) → IsIndent s → IsSolid t → indent_of (s <> t) ≡ s
unfolding indent_of
indent_of-append String.[] t h solid = rw (nil-append t) (indent_of-solid t solid)
indent_of-append (String.◌∷◌ c s) t (blank, h) solid =
    rw (cons-append c s t) (rw blank (ap (String.◌∷◌ c) (indent_of-append s t h solid)))

without_indent-append : (s t : String) → IsIndent s → IsSolid t → without_indent (s <> t) ≡ t
unfolding without_indent
without_indent-append String.[] t h solid = rw (nil-append t) (without_indent-solid t solid)
without_indent-append (String.◌∷◌ c s) t (blank, h) solid =
    rw (cons-append c s t) (rw blank (without_indent-append s t h solid))

pub indent_of-IsIndent : (line : String) → IsIndent (indent_of line)
unfolding indent_of
indent_of-IsIndent String.[] = tt
indent_of-IsIndent (String.◌∷◌ c s) = elim (Bool-cases (is_blank (code c))) [
  | inl blank ↦ rw blank (blank, indent_of-IsIndent s)
  | inr solid ↦ rw solid tt
]

module _ (key : String) (solid : IsSolid key) where
  pub entry-IsSolid : (v : String) → IsSolid (entry key v)
  entry-IsSolid v = IsSolid-append (key <> ":") _ (IsSolid-append key ":" solid)

  -- an indented entry is one, and keeps its indent
  pub indented-is_entry :
      (s v : String) → IsIndent s → (s == "") ≡ false → is_entry key (s <> entry key v) ≡ true
  unfolding is_entry
  indented-is_entry s v h indented =
      rw
        (
          indent_of-append s (entry key v) h (entry-IsSolid v),
          without_indent-append s (entry key v) h (entry-IsSolid v),
          indented,
        )
        (starts_with-append (key <> ":") _)
