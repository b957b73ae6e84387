-- ===== src/Install/ExpectedState/Shell.antt =====
-- How a POSIX shell reads a file of comments and assignments: a word is made of characters with no
-- meaning of their own, of texts in single quotes, and of texts in double quotes that have nothing to
-- expand. Whatever else a shell would act on is refused. A NUL character, which a shell leaves out, is
-- read like any other.
use Prim.Native.Char.{Char, code}
use arch_installer.Prelude.{
  String, Bool, ◌&&◌, ◌||◌, leb, eqb, Option, none, some, List, [], ◌∷◌, if◌then◌else◌,
}

pub data Mode : Type 0 where
  start comment name plain single double refused : Mode

pub data Action : Type 0 where
  skip to_name to_value end_line : Action

unfoldable pub is_name_char : Char → Bool
is_name_char c = let n = code c in (leb 65 n && leb n 90) || (leb 97 n && leb n 122) || eqb n 95

-- letters, digits and `_@%+=:,./-`
unfoldable pub is_plain_char : Char → Bool
is_plain_char c =
    let n = code c in
    (leb 43 n && leb n 58)
    || (leb 64 n && leb n 90)
    || (leb 97 n && leb n 122)
    || eqb n 95
    || eqb n 37
    || eqb n 61

-- `$`, the backquote and the backslash
unfoldable pub is_expanded : Char → Bool
is_expanded c = let n = code c in eqb n 36 || eqb n 96 || eqb n 92

abbrev pub start_step : Char → Action × Mode
start_step c =
    if eqb (code c) 35
    then (skip, comment)
    else if is_name_char c
    then (to_name, name)
    else (skip, refused)

abbrev pub name_step : Char → Action × Mode
name_step c =
    if is_name_char c
    then (to_name, name)
    else if eqb (code c) 61
    then (skip, plain)
    else (skip, refused)

abbrev pub plain_step : Char → Action × Mode
plain_step c =
    if is_plain_char c
    then (to_value, plain)
    else if eqb (code c) 39
    then (skip, single)
    else if eqb (code c) 34
    then (skip, double)
    else if eqb (code c) 10
    then (end_line, start)
    else (skip, refused)

abbrev pub double_step : Char → Action × Mode
double_step c =
    if eqb (code c) 34
    then (skip, plain)
    else if is_expanded c
    then (skip, refused)
    else (to_value, double)

abbrev pub step : Mode → Char → Action × Mode
step start c = start_step c
step comment c = (skip, if eqb (code c) 10 then start else comment)
step name c = name_step c
step plain c = plain_step c
step single c = if eqb (code c) 39 then (skip, plain) else (to_value, single)
step double c = double_step c
step refused c = (skip, refused)

-- the assignments, the first of them from where the reading stands
abbrev pub Read : Type 0
Read = Option (List (String × String))

abbrev pub name_char : Char → Read → Read
name_char c (some ((n, v) ∷ rest)) = some ((String.◌∷◌ c n, v) ∷ rest)
name_char c _ = none

abbrev pub value_char : Char → Read → Read
value_char c (some ((n, v) ∷ rest)) = some ((n, String.◌∷◌ c v) ∷ rest)
value_char c _ = none

abbrev pub ended : Read → Read
ended none = none
ended (some rest) = some (("", "") ∷ rest)

abbrev pub act : Action → Char → Read → Read
act skip c r = r
act to_name c r = name_char c r
act to_value c r = value_char c r
act end_line c r = ended r

abbrev pub at_end : Mode → Read
at_end start = some []
at_end _ = none

unfoldable pub read : Mode → String → Read
unfolding is_name_char is_plain_char is_expanded
read m String.[] = at_end m
read m (String.◌∷◌ c s) = act (step m c).0 c (read (step m c).1 s)

-- what the file assigns
unfoldable pub sourced : String → Read
unfolding read
sourced file = read start file
