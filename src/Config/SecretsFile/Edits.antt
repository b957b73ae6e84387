-- ===== src/Config/SecretsFile/Edits.antt =====
-- config/secrets_file.py: what setting an encrypted password does to the lines of a config.yaml.
use mathlib.Core.List.{append_assoc}
use arch_installer.Prelude.{
  ◌≡◌, refl, sym, ap, subst, ◌∙◌, inl, inr, not, String, ◌<>◌, ◌==◌, Bool, true, false, ◌&&◌, List,
  [], ◌∷◌, ◌++◌, All, All-append,
}
use arch_installer.Config.SecretsFile.{
  indent_of, is_entry, is_section_line, entry, with_section, without_empty_end, or_empty_line,
  set_lines,
}
use arch_installer.Config.SecretsFile.Lines.{
  Fails, first_passing, replace_first-none, replace_first-append, without_empty_end-All,
  or_empty_line-All, IsSolid, IsIndent, indent_of-IsIndent, indent_of-append, entry-IsSolid,
  indented-is_entry,
}

All-right : (P : String → Type 0) (xs ys : List String) → All P (xs ++ ys) → All P ys
All-right P [] ys h = h
All-right P (x ∷ xs) ys (p, h) = All-right P xs ys h

All-first :
    (P : String → Type 0) (xs : List String) (y : String) (ys : List String)
    → All P (xs ++ (y ∷ ys))
    → All P (xs ++ (y ∷ []))
All-first P [] y ys (p, h) = (p, tt)
All-first P (x ∷ xs) y ys (p, h) = (p, All-first P xs y ys h)

indented : (b c : Bool) → not b && c ≡ true → b ≡ false
indented true c h = cc
indented false c h = refl

pub inner_of : (key line : String) → is_entry key line ≡ true → (indent_of line == "") ≡ false
unfolding is_entry
inner_of key line h = indented _ _ h

module _ (key : String) (solid : IsSolid key) where
  pub set-existing :
      (v : String) (before : List String) (line : String) (after : List String)
      → All (Fails (is_entry key)) before
      → is_entry key line ≡ true
      → set_lines key v (before ++ (line ∷ after))
        ≡ before ++ ((indent_of line <> entry key v) ∷ after)
  unfolding set_lines
  set-existing v before line after fails passes =
      rw
        (replace_first-append (is_entry key) (λ l. (indent_of l <> entry key v) ∷ []) before line
          after fails passes)
        refl

  pub set-section :
      (v : String) (before : List String) (line : String) (after : List String)
      → All (Fails (is_entry key)) (before ++ (line ∷ after))
      → All (Fails is_section_line) before
      → is_section_line line ≡ true
      → set_lines key v (before ++ (line ∷ after))
        ≡ before ++ (line ∷ ("  " <> entry key v) ∷ after)
  unfolding set_lines
  set-section v before line after none_entry fails passes =
      rw
        (
          replace_first-none (is_entry key) (λ l. (indent_of l <> entry key v) ∷ []) _ none_entry,
          replace_first-append is_section_line (λ l. l ∷ ("  " <> entry key v) ∷ []) before line
              after fails passes,
        )
        refl

  set-absent :
      (v : String) (lines : List String)
      → All (Fails (is_entry key)) lines
      → All (Fails is_section_line) lines
      → set_lines key v lines ≡ with_section key v lines
  unfolding set_lines
  set-absent v lines none_entry none_section =
      rw
        (
          replace_first-none (is_entry key) (λ l. (indent_of l <> entry key v) ∷ []) lines
              none_entry,
          replace_first-none is_section_line (λ l. l ∷ ("  " <> entry key v) ∷ []) lines
              none_section,
        )
        refl

  -- an entry that was set is set again where it stands
  set-set :
      (v w s : String) (before after : List String)
      → All (Fails (is_entry key)) before
      → IsIndent s
      → (s == "") ≡ false
      → set_lines key w (before ++ ((s <> entry key v) ∷ after))
        ≡ before ++ ((s <> entry key w) ∷ after)
  set-set v w s before after fails h inner =
      set-existing w before (s <> entry key v) after fails (indented-is_entry key solid s v h inner)
      ∙ ap (λ t. before ++ ((t <> entry key w) ∷ after))
          (indent_of-append s (entry key v) h (entry-IsSolid key solid v))

  set_twice-existing :
      (v w : String) (before : List String) (line : String) (after : List String)
      → All (Fails (is_entry key)) before
      → is_entry key line ≡ true
      → set_lines key w (set_lines key v (before ++ (line ∷ after)))
        ≡ set_lines key w (before ++ (line ∷ after))
  set_twice-existing v w before line after fails passes =
      ap (set_lines key w) (set-existing v before line after fails passes)
      ∙ set-set v w (indent_of line) before after fails (indent_of-IsIndent line)
          (inner_of key line passes)
      ∙ sym (set-existing w before line after fails passes)

  set_twice-section :
      (v w : String) (before : List String) (line : String) (after : List String)
      → All (Fails (is_entry key)) (before ++ (line ∷ after))
      → All (Fails is_section_line) before
      → is_section_line line ≡ true
      → set_lines key w (set_lines key v (before ++ (line ∷ after)))
        ≡ set_lines key w (before ++ (line ∷ after))
  set_twice-section v w before line after none_entry fails passes =
      ap (set_lines key w) (
        set-section v before line after none_entry fails passes
        ∙ sym (append_assoc before (line ∷ []) (("  " <> entry key v) ∷ after)))
      ∙ set-set v w "  " (before ++ (line ∷ [])) after (All-first _ before line after none_entry)
          (refl, (refl, tt)) refl
      ∙ append_assoc before (line ∷ []) (("  " <> entry key w) ∷ after)
      ∙ sym (set-section w before line after none_entry fails passes)

  set_twice-absent :
      (v w : String) (lines : List String)
      → All (Fails (is_entry key)) lines
      → All (Fails is_section_line) lines
      → set_lines key w (set_lines key v lines) ≡ set_lines key w lines
  unfolding with_section is_entry indent_of
  set_twice-absent v w lines none_entry none_section =
      let kept = or_empty_line (without_empty_end lines) in
      let fails =
        All-append (Fails (is_entry key)) kept ("" ∷ "secrets:" ∷ [])
          (or_empty_line-All _ _ refl (without_empty_end-All _ lines none_entry))
          (refl, (refl, tt)) in
      ap (set_lines key w) (
        set-absent v lines none_entry none_section
        ∙ sym (append_assoc kept ("" ∷ "secrets:" ∷ []) (("  " <> entry key v) ∷ "" ∷ [])))
      ∙ set-set v w "  " (kept ++ ("" ∷ "secrets:" ∷ [])) ("" ∷ []) fails (refl, (refl, tt)) refl
      ∙ append_assoc kept ("" ∷ "secrets:" ∷ []) (("  " <> entry key w) ∷ "" ∷ [])
      ∙ sym (set-absent w lines none_entry none_section)

  -- Setting a password twice is the same as setting it once to the later value, in every file: there is
  -- no second entry, and nothing of the first value is left. The key is not empty and begins with no
  -- blank.
  pub set_lines-set_lines :
      (v w : String) (lines : List String)
      → set_lines key w (set_lines key v lines) ≡ set_lines key w lines
  set_lines-set_lines v w lines = elim (first_passing (is_entry key) lines) [
    | inr s ↦
        subst (λ ls. set_lines key w (set_lines key v ls) ≡ set_lines key w ls) (sym s.joins)
          (set_twice-existing v w s.before s.line s.after s.fails s.passes)
    | inl none_entry ↦ elim (first_passing is_section_line lines) [
      | inl none_section ↦ set_twice-absent v w lines none_entry none_section
      | inr s ↦
          subst (λ ls. set_lines key w (set_lines key v ls) ≡ set_lines key w ls) (sym s.joins)
            (set_twice-section v w s.before s.line s.after
              (subst (All (Fails (is_entry key))) s.joins none_entry) s.fails s.passes)
    ]
  ]
