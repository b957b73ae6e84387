-- ===== src/Install/ExpectedState/Sourced.antt =====
-- expected_state.py: a shell that reads the file gets the values of the configuration.
use Prim.Native.Char.{Char, code}
use text.Mathlib.TextEquality.{Char-path}
use text.Mathlib.TextLemmas.{append_assoc, append-nil}
use arch_installer.Prelude.{
  ◌≡◌, refl, sym, ap, ℕ, ◌∙◌, String, ◌<>◌, ◌==◌, eq_iff, join, Bool, true, false, ◌&&◌, Bool-cases,
  inl, inr, eqb, some, List, [], ◌∷◌, map, arith, and_left, and_right, if◌then◌else◌,
}
use arch_installer.Prelude.Splitting.{Lacks, cons-append, nil-append}
use arch_installer.Config.Models.{InstallerConfig}
use arch_installer.Install.ExpectedState.Words.{is_safe, all_safe, escape_quotes, quote}
use arch_installer.Install.ExpectedState.Shell.{
  start, comment, name, plain, single, Read, is_name_char, is_plain_char, name_char, value_char,
  ended, read, sourced,
}
use arch_installer.Install.ExpectedState.{
  StateValue, word, switch, shell_word, expected_state_values, assignment, expected_state_file,
}

-- the values of a text put in front of what is read
value_text : String → Read → Read
value_text String.[] r = r
value_text (String.◌∷◌ c s) r = value_char c (value_text s r)

name_text : String → Read → Read
name_text String.[] r = r
name_text (String.◌∷◌ c s) r = name_char c (name_text s r)

-- a character of an own meaning, in front of a text
char-append : (c : Char) (t : String) → String.◌∷◌ c "" <> t ≡ String.◌∷◌ c t
char-append c t = cons-append c "" t ∙ ap (λ u. String.◌∷◌ c u) (nil-append t)

safe-plain : (c : Char) → is_safe c ≡ true → is_plain_char c ≡ true
unfolding is_safe is_plain_char
safe-plain c h = ground arith

read-safe : (s t : String) → all_safe s ≡ true → read plain (s <> t) ≡ value_text s (read plain t)
unfolding read all_safe value_text
read-safe String.[] t h = rw (nil-append t) refl
read-safe (String.◌∷◌ c s) t h =
    rw (cons-append c s t)
      (rw (safe-plain c (and_left _ _ h)) (ap (value_char c) (read-safe s t (and_right _ _ h))))

-- the escape of a quote is that quote
read-escape : (t : String) → read single ("'\"'\"'" <> t) ≡ value_char "'" (read single t)
unfolding read is_plain_char
read-escape t =
    rw
      (
        cons-append "'" "\"'\"'" t,
        cons-append "\"" "'\"'" t,
        cons-append "'" "\"'" t,
        cons-append "\"" "'" t,
        char-append "'" t,
      )
      refl

code_is : (c : Char) (n : ℕ) → eqb (code c) n ≡ true → code c ≡ n
code_is c n h = ground arith

read-quoted :
    (s t : String) → read single (escape_quotes s <> ("'" <> t)) ≡ value_text s (read plain t)
unfolding read escape_quotes value_text
read-quoted String.[] t = rw (nil-append ("'" <> t), char-append "'" t) refl
read-quoted (String.◌∷◌ c s) t = elim (Bool-cases (eqb (code c) 39)) [
  | inl quoted ↦
      rw (quoted, append_assoc "'\"'\"'" (escape_quotes s) ("'" <> t))
        (read-escape (escape_quotes s <> ("'" <> t))
          ∙ ap (value_char "'") (read-quoted s t)
          ∙ ap (λ d. value_char d (value_text s (read plain t)))
              (sym (Char-path c "'" (code_is c 39 quoted))))
  | inr other ↦
      rw (other, cons-append c (escape_quotes s) ("'" <> t))
        (rw other (ap (value_char c) (read-quoted s t)))
]

read-empty : (t : String) → read plain ("''" <> t) ≡ read plain t
unfolding read is_plain_char
read-empty t = rw (cons-append "'" "'" t, char-append "'" t) refl

-- A quoted word is read back.
read-quote : (s t : String) → read plain (quote s <> t) ≡ value_text s (read plain t)
unfolding quote value_text read
read-quote s t = elim (Bool-cases (s == "")) [
  | inl empty ↦ rw ((eq_iff s "").0 empty) (read-empty t)
  | inr nonempty ↦ elim (Bool-cases (all_safe s)) [
    | inl safe ↦ rw (nonempty, safe) (read-safe s t safe)
    | inr unsafe ↦
        rw (nonempty, unsafe)
          (rw
            (
              append_assoc "'" (escape_quotes s <> "'") t,
              append_assoc (escape_quotes s) "'" t,
              char-append "'" (escape_quotes s <> ("'" <> t)),
            )
            (read-quoted s t))
  ]
]

-- the text of a value
abbrev pub text_of : StateValue → String
text_of (word s) = s
text_of (switch value) = if value then "true" else "false"

read-shell_word :
    (v : StateValue) (t : String)
    → read plain (shell_word v <> t) ≡ value_text (text_of v) (read plain t)
unfolding shell_word all_safe is_safe
read-shell_word (word s) t = read-quote s t
read-shell_word (switch true) t = read-safe "true" t refl
read-shell_word (switch false) t = read-safe "false" t refl

value_text-some :
    (s n v : String) (rest : List (String × String))
    → value_text s (some ((n, v) ∷ rest)) ≡ some ((n, s <> v) ∷ rest)
unfolding value_text
value_text-some String.[] n v rest = rw (nil-append v) refl
value_text-some (String.◌∷◌ c s) n v rest =
    rw (cons-append c s v) (ap (value_char c) (value_text-some s n v rest))

name_text-some :
    (s n v : String) (rest : List (String × String))
    → name_text s (some ((n, v) ∷ rest)) ≡ some ((s <> n, v) ∷ rest)
unfolding name_text
name_text-some String.[] n v rest = rw (nil-append n) refl
name_text-some (String.◌∷◌ c s) n v rest =
    rw (cons-append c s n) (ap (name_char c) (name_text-some s n v rest))

abbrev all_name : String → Bool
all_name String.[] = true
all_name (String.◌∷◌ c s) = is_name_char c && all_name s

-- not empty, and of the characters of names
abbrev is_name : String → Bool
is_name String.[] = false
is_name (String.◌∷◌ c s) = is_name_char c && all_name s

name-no_comment : (c : Char) → is_name_char c ≡ true → eqb (code c) 35 ≡ false
unfolding is_name_char
name-no_comment c h = ground arith

read-name :
    (n t : String) → all_name n ≡ true → read name (n <> ("=" <> t)) ≡ name_text n (read plain t)
unfolding read name_text is_name_char
read-name String.[] t h = rw (nil-append ("=" <> t), char-append "=" t) refl
read-name (String.◌∷◌ c n) t h = rw (cons-append c n ("=" <> t)) (
    let named : is_name_char c ≡ true = and_left _ _ h in
    rw named (ap (name_char c) (read-name n t (and_right _ _ h))))

start-name :
    (n t : String) → is_name n ≡ true → read start (n <> ("=" <> t)) ≡ name_text n (read plain t)
unfolding read name_text
start-name String.[] t h = cc
start-name (String.◌∷◌ c n) t h = rw (cons-append c n ("=" <> t)) (
    let named : is_name_char c ≡ true = and_left _ _ h in
    rw (name-no_comment c named, named) (ap (name_char c) (read-name n t (and_right _ _ h))))

read-line : (t : String) → read plain ("\n" <> t) ≡ ended (read start t)
unfolding read is_plain_char
read-line t = rw (char-append "\n" t) refl

read-assignment :
    (n t : String) (v : StateValue) (rest : List (String × String))
    → is_name n ≡ true
    → read start t ≡ some rest
    → read start (assignment (n, v) <> ("\n" <> t)) ≡ some ((n, text_of v) ∷ rest)
unfolding assignment
read-assignment n t v rest h later =
    rw
      (
        append_assoc n ("=" <> shell_word v) ("\n" <> t),
        append_assoc "=" (shell_word v) ("\n" <> t),
      )
      (start-name n (shell_word v <> ("\n" <> t)) h
        ∙ ap (name_text n) (
            read-shell_word v ("\n" <> t)
            ∙ ap (value_text (text_of v)) (read-line t ∙ ap ended later)
            ∙ value_text-some (text_of v) "" "" rest)
        ∙ name_text-some n "" (text_of v <> "") rest
        ∙ rw (append-nil n, append-nil (text_of v)) refl)

abbrev are_names : List (String × StateValue) → Bool
are_names [] = true
are_names ((n, v) ∷ values) = is_name n && are_names values

-- each name with the text of its value
abbrev pub texts_of : List (String × StateValue) → List (String × String)
texts_of values = map (λ (n, v). (n, text_of v)) values

read-assignments :
    (n : String) (v : StateValue) (values : List (String × StateValue))
    → is_name n ≡ true
    → are_names values ≡ true
    → read start (join "\n" (assignment (n, v) ∷ map assignment values) <> "\n")
      ≡ some ((n, text_of v) ∷ texts_of values)
unfolding join read
read-assignments n v [] h hs = read-assignment n "" v [] h refl
read-assignments n v ((m, u) ∷ values) h hs =
    let later = join "\n" (assignment (m, u) ∷ map assignment values) in
    rw (append_assoc (assignment (n, v)) ("\n" <> later) "\n", append_assoc "\n" later "\n")
      (read-assignment n (later <> "\n") v _ h
        (read-assignments m u values (and_left _ _ hs) (and_right _ _ hs)))

read-comment : (s t : String) → Lacks 10 s → read comment (s <> ("\n" <> t)) ≡ read start t
unfolding read
read-comment String.[] t l = rw (nil-append ("\n" <> t), char-append "\n" t) refl
read-comment (String.◌∷◌ c s) t (differs, l) =
    rw (cons-append c s ("\n" <> t)) (rw differs (read-comment s t l))

-- a comment and then assignments
read-file :
    (remark : String) (values : List (String × StateValue))
    → Lacks 10 remark
    → are_names values ≡ true
    → read start (join "\n" (("#" <> remark) ∷ map assignment values) <> "\n")
      ≡ some (texts_of values)
unfolding join read
read-file remark [] l hs =
    rw (append_assoc "#" remark "\n", char-append "#" (remark <> "\n")) (read-comment remark "" l)
read-file remark ((n, v) ∷ values) l hs =
    let later = join "\n" (map assignment ((n, v) ∷ values)) in
    rw
      (
        append_assoc ("#" <> remark) ("\n" <> later) "\n",
        append_assoc "\n" later "\n",
        append_assoc "#" remark ("\n" <> (later <> "\n")),
        char-append "#" (remark <> ("\n" <> (later <> "\n"))),
      )
      (read-comment remark (later <> "\n") l
        ∙ read-assignments n v values (and_left _ _ hs) (and_right _ _ hs))

remark-Lacks :
    Lacks 10 " written by the DALI installer from the final configuration, read by verify-install"
remark-Lacks = ground arith

-- A shell that reads the expected state of an installation gets, under each name, the value that the
-- configuration has for it, whatever characters the values hold: no text of a configuration is expanded
-- or run.
pub sourced-expected_state_file :
    (config : InstallerConfig)
    → sourced (expected_state_file config) ≡ some (texts_of (expected_state_values config))
unfolding sourced expected_state_file expected_state_values is_name_char
sourced-expected_state_file config =
    read-file " written by the DALI installer from the final configuration, read by verify-install"
      (expected_state_values config) remark-Lacks refl
