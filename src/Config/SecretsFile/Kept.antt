-- ===== src/Config/SecretsFile/Kept.antt =====
-- config/secrets_file.py: the lines of a config.yaml that setting an encrypted password leaves alone.
use arch_installer.Prelude.{
  ◌≡◌, refl, sym, ap, subst, ◌∙◌, inl, inr, not, String, ◌<>◌, Bool, true, false, ◌||◌, List, [],
  ◌∷◌, ◌++◌, All, keep, any, Bool-cases,
}
use arch_installer.Config.SecretsFile.{indent_of, is_entry, is_section_line, entry, set_lines}
use arch_installer.Config.SecretsFile.Lines.{
  Fails, first_passing, IsSolid, indent_of-IsIndent, indented-is_entry,
}
use arch_installer.Config.SecretsFile.Edits.{inner_of, set-existing, set-section}

keep-true :
    (p : String → Bool) (x : String) (xs : List String)
    → p x ≡ true
    → keep p (x ∷ xs) ≡ x ∷ keep p xs
keep-true p x xs e = rw (e, keep) refl

keep-false :
    (p : String → Bool) (x : String) (xs : List String) → p x ≡ false → keep p (x ∷ xs) ≡ keep p xs
keep-false p x xs e = rw (e, keep) refl

keep-append : (p : String → Bool) (xs ys : List String) → keep p (xs ++ ys) ≡ keep p xs ++ keep p ys
keep-append p [] ys = refl
keep-append p (x ∷ xs) ys = elim (Bool-cases (p x)) [
  | inl e ↦
      keep-true p x (xs ++ ys) e
      ∙ ap (λ zs. x ∷ zs) (keep-append p xs ys)
      ∙ sym (ap (λ zs. zs ++ keep p ys) (keep-true p x xs e))
  | inr e ↦
      keep-false p x (xs ++ ys) e
      ∙ keep-append p xs ys
      ∙ sym (ap (λ zs. zs ++ keep p ys) (keep-false p x xs e))
]

none-any : (p : String → Bool) (xs : List String) → All (Fails p) xs → any p xs ≡ false
none-any p [] h = refl
none-any p (x ∷ xs) (e, h) = rw e (none-any p xs h)

module _ (key : String) (solid : IsSolid key) where
  abbrev is_other : String → Bool
  is_other line = not (is_entry key line)

  -- the lines that are no entry of the key
  abbrev pub other_lines : List String → List String
  other_lines = keep is_other

  other_lines-skip :
      (line : String) (lines : List String)
      → is_entry key line ≡ true
      → other_lines (line ∷ lines) ≡ other_lines lines
  other_lines-skip line lines passes = keep-false is_other line lines (ap not passes)

  -- an entry among the lines does not count
  other_lines-append :
      (before : List String) (line : String) (after : List String)
      → is_entry key line ≡ true
      → other_lines (before ++ (line ∷ after)) ≡ other_lines before ++ other_lines after
  other_lines-append before line after passes =
      keep-append is_other before (line ∷ after)
      ∙ ap (λ ls. other_lines before ++ ls) (other_lines-skip line after passes)

  kept-existing :
      (v : String) (before : List String) (line : String) (after : List String)
      → All (Fails (is_entry key)) before
      → is_entry key line ≡ true
      → other_lines (set_lines key v (before ++ (line ∷ after)))
        ≡ other_lines (before ++ (line ∷ after))
  kept-existing v before line after fails passes =
      ap other_lines (set-existing key solid v before line after fails passes)
      ∙ other_lines-append before (indent_of line <> entry key v) after (
          indented-is_entry key solid (indent_of line) v (indent_of-IsIndent line)
            (inner_of key line passes))
      ∙ sym (other_lines-append before line after passes)

  kept-section :
      (v : String) (before : List String) (line : String) (after : List String)
      → All (Fails (is_entry key)) (before ++ (line ∷ after))
      → All (Fails is_section_line) before
      → is_section_line line ≡ true
      → other_lines (set_lines key v (before ++ (line ∷ after)))
        ≡ other_lines (before ++ (line ∷ after))
  kept-section v before line after none_entry fails passes =
      ap other_lines (set-section key solid v before line after none_entry fails passes)
      ∙ keep-append is_other before (line ∷ ("  " <> entry key v) ∷ after)
      ∙ ap (λ ls. other_lines before ++ ls)
          (other_lines-append (line ∷ []) ("  " <> entry key v) after
              (indented-is_entry key solid "  " v (refl, (refl, tt)) refl)
            ∙ sym (keep-append is_other (line ∷ []) after))
      ∙ sym (keep-append is_other before (line ∷ after))

  -- In a file that has a `secrets:` line or an entry of the key, setting a password changes no line but
  -- the entries of that key: all other lines, comments and other settings included, stay as they are and
  -- in their order. The key is not empty and begins with no blank.
  pub set_lines-keeps_others :
      (v : String) (lines : List String)
      → any (is_entry key) lines || any is_section_line lines ≡ true
      → other_lines (set_lines key v lines) ≡ other_lines lines
  set_lines-keeps_others v lines given = elim (first_passing (is_entry key) lines) [
    | inr s ↦
        subst (λ ls. other_lines (set_lines key v ls) ≡ other_lines ls) (sym s.joins)
          (kept-existing v s.before s.line s.after s.fails s.passes)
    | inl none_entry ↦ elim (first_passing is_section_line lines) [
      | inl none_section ↦ absurd (
          cc
            (none-any (is_entry key) lines none_entry, none-any is_section_line lines none_section))
      | inr s ↦
          subst (λ ls. other_lines (set_lines key v ls) ≡ other_lines ls) (sym s.joins)
            (kept-section v s.before s.line s.after
              (subst (All (Fails (is_entry key))) s.joins none_entry) s.fails s.passes)
    ]
  ]
