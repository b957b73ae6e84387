-- ===== src/Prelude/Text.antt =====
-- Python's `str` operations that the program uses, over the code points of a native text.
-- White space is Python's full set. `lower` maps the ASCII capitals and the one other character
-- whose lower case is an ASCII letter (the Kelvin sign).
use Prim.Native.Nat.{ℕ, zero, suc, ◌-◌, ◌/◌, ◌%◌}
use Prim.Native.Char.{Char, code}
use Prim.Native.Nat.{Ordering}
use Prim.Native.String.{String, ◌++◌ as ◌<>◌, compare, count}
use mathlib.Core.Path.{◌≡◌, refl}
use mathlib.Core.Bool.{Bool, true, false, not, ◌&&◌, ◌||◌}
use mathlib.Core.List.{List, [], ◌∷◌}
use text.Mathlib.Text.{◌==◌, starts_with}
use arch_installer.Prelude.Tests.{ltb, leb, eqb, if◌then◌else◌}

unfoldable pub is_space : Char → Bool
is_space c =
    let n = code c in
    (leb 9 n && leb n 13)
    || (leb 28 n && leb n 32)
    || eqb n 0x85
    || eqb n 0xa0
    || eqb n 0x1680
    || (leb 0x2000 n && leb n 0x200a)
    || eqb n 0x2028
    || eqb n 0x2029
    || eqb n 0x202f
    || eqb n 0x205f
    || eqb n 0x3000

-- `s.lstrip()`
unfoldable pub strip_left : String → String
unfolding is_space
strip_left String.[] = ""
strip_left (String.◌∷◌ c s) = let rest = strip_left s in if is_space c then rest else String.◌∷◌ c s

-- `s.rstrip()`: a space goes only if all that follows it does
unfoldable pub strip_right : String → String
unfolding is_space
strip_right String.[] = ""
strip_right (String.◌∷◌ c s) =
    let rest = strip_right s in if is_space c && rest == "" then "" else String.◌∷◌ c rest

unfoldable pub strip : String → String
unfolding strip_left strip_right
strip s = strip_left (strip_right s)

-- `sep in s`, for a text `sep`
unfoldable pub contains : String → String → Bool
contains sep String.[] = sep == ""
contains sep (String.◌∷◌ c s) = starts_with (String.◌∷◌ c s) sep || contains sep s

-- `s.split(sep)` for a one-character separator, given by its code; never empty
cons_first : Char → List String → List String
cons_first c [] = String.◌∷◌ c "" ∷ []
cons_first c (part ∷ parts) = String.◌∷◌ c part ∷ parts

unfoldable pub split_on : ℕ → String → List String
unfolding cons_first
split_on sep String.[] = "" ∷ []
split_on sep (String.◌∷◌ c s) =
    let parts = split_on sep s in if eqb (code c) sep then "" ∷ parts else cons_first c parts

-- `s.split()`: the words between runs of white space. `word` is what was read of one.
add_word : String → List String → List String
add_word word words = if word == "" then words else word ∷ words

split_loop : String → String → List String
unfolding is_space add_word
split_loop word String.[] = add_word word []
split_loop word (String.◌∷◌ c s) =
    let rest = split_loop (if is_space c then "" else word <> String.◌∷◌ c "") s in
    if is_space c then add_word word rest else rest

unfoldable pub split_words : String → List String
unfolding split_loop
split_words s = split_loop "" s

-- `s.split(sep)` for any text `sep` but the empty one: the leftmost matches, that do not overlap
split_text_loop : String → ℕ → String → String → List String
split_text_loop sep skip word String.[] = word ∷ []
split_text_loop sep (suc skip) word (String.◌∷◌ c s) = split_text_loop sep skip word s
split_text_loop sep zero word (String.◌∷◌ c s) =
    let found = starts_with (String.◌∷◌ c s) sep in
    let rest =
      split_text_loop sep (if found then count sep - 1 else 0)
        (if found then "" else word <> String.◌∷◌ c "") s in
    if found then word ∷ rest else rest

unfoldable pub split_text : String → String → List String
unfolding split_text_loop
split_text sep s = split_text_loop sep 0 "" s

-- `s.splitlines()`: every line boundary that Python knows, `\r\n` as one, no empty last line
is_boundary : ℕ → Bool
is_boundary n =
    (leb 10 n && leb n 13) || (leb 28 n && leb n 30) || eqb n 0x85 || eqb n 0x2028 || eqb n 0x2029

split_lines_loop : Bool → String → String → List String
unfolding is_boundary add_word
split_lines_loop after_return line String.[] = add_word line []
split_lines_loop after_return line (String.◌∷◌ c s) =
    let n = code c in
    let skipped = after_return && eqb n 10 in
    let rest =
      split_lines_loop (eqb n 13)
        (if skipped then line else if is_boundary n then "" else line <> String.◌∷◌ c "") s in
    if is_boundary n && not skipped then line ∷ rest else rest

unfoldable pub split_lines : String → List String
unfolding split_lines_loop
split_lines s = split_lines_loop false "" s

abbrev pub last_or : String → List String → String
last_or default [] = default
last_or default (part ∷ parts) = last_or part parts

-- `s.rsplit(sep, 1)[-1]` for a one-character separator
unfoldable pub after_last : ℕ → String → String
unfolding split_on
after_last sep s = last_or "" (split_on sep s)

-- `x in xs` for a list or a set of texts
abbrev pub member : String → List String → Bool
member x [] = false
member x (y ∷ ys) = x == y || member x ys

-- `sorted(xs)[0]`, of `first ∷ xs`; texts compare by code point
abbrev pub least : String → List String → String
least first [] = first
least first (x ∷ xs) = least (elim (compare x first) [ Ordering.lt ↦ x | _ ↦ first ]) xs

-- `sep.join(parts)`
unfoldable pub join : String → List String → String
join sep [] = ""
join sep (part ∷ []) = part
join sep (part ∷ (next ∷ parts)) = part <> (sep <> join sep (next ∷ parts))

-- the one-character text at a position, empty past the end
unfoldable pub char_text_at : String → ℕ → String
char_text_at String.[] n = ""
char_text_at (String.◌∷◌ c s) zero = String.◌∷◌ c ""
char_text_at (String.◌∷◌ c s) (suc n) = char_text_at s n

-- four hexadecimal digits
hex_digit : ℕ → String
unfolding char_text_at
hex_digit n = char_text_at "0123456789abcdef" (n % 16)

unfoldable pub hex4 : ℕ → String
unfolding hex_digit
hex4 n = hex_digit (n / 4096) <> (hex_digit (n / 256) <> (hex_digit (n / 16) <> hex_digit n))

-- `s.replace(old, new)`
unfoldable pub replace : String → String → String → String
unfolding split_text join
replace old new s = join new (split_text old s)

lower_char : Char → String
unfolding char_text_at
lower_char c =
    let n = code c in
    if leb 65 n && leb n 90
    then char_text_at "abcdefghijklmnopqrstuvwxyz" (n - 65)
    else if eqb n 0x212a
    then "k"
    else String.◌∷◌ c ""

-- `s.lower()`
unfoldable pub lower : String → String
unfolding lower_char
lower String.[] = ""
lower (String.◌∷◌ c s) = lower_char c <> lower s

-- `str(n)` of a whole number; the number itself is fuel enough, since each round divides by ten
show_loop : ℕ → ℕ → String → String
unfolding char_text_at
show_loop zero n done = done
show_loop (suc fuel) n done =
    let shown = char_text_at "0123456789" (n % 10) <> done in
    let rest = show_loop fuel (n / 10) shown in if ltb n 10 then shown else rest

unfoldable pub show_nat : ℕ → String
unfolding show_loop
show_nat n = show_loop (suc n) n ""

text_examples :
    (show_nat 1024 ≡ "1024")
    × (strip "  a b\n" ≡ "a b")
    × (split_words " nvme  disk\n" ≡ "nvme" ∷ "disk" ∷ [])
    × (split_on 46 "a.b" ≡ "a" ∷ "b" ∷ [])
    × (lower "TRUE" ≡ "true")
    × (contains "oo" "/dev/loop0" ≡ true)
    × (join ", " ("a" ∷ "b" ∷ []) ≡ "a, b")
    × (split_text " path " "5 path @ path path x" ≡ "5" ∷ "@" ∷ "path x" ∷ [])
    × (split_lines "a\r\nb\n\nc\n" ≡ "a" ∷ "b" ∷ "" ∷ "c" ∷ [])
    × (after_last 47 "/dev/sda" ≡ "sda")
unfolding show_nat strip split_words split_on lower contains join split_text split_lines after_last
text_examples = (refl, refl, refl, refl, refl, refl, refl, refl, refl, refl)

insert_text : String → List String → List String
insert_text x [] = x ∷ []
insert_text x (y ∷ ys) = elim (compare y x) [
  | Ordering.lt ↦ y ∷ insert_text x ys
  | _ ↦ x ∷ (y ∷ ys)
]

-- `sorted(xs)`, by code point
unfoldable pub sort_texts : List String → List String
unfolding insert_text
sort_texts [] = []
sort_texts (x ∷ xs) = insert_text x (sort_texts xs)

abbrev pub without : String → List String → List String
without x [] = []
without x (y ∷ ys) = let rest = without x ys in if y == x then rest else y ∷ rest

-- `list(dict.fromkeys(xs))`: the first occurrence of each
unfoldable pub distinct : List String → List String
distinct [] = []
distinct (x ∷ xs) = x ∷ without x (distinct xs)

all_digits : String → Bool
all_digits String.[] = true
all_digits (String.◌∷◌ c s) = leb 48 (code c) && leb (code c) 57 && all_digits s

-- `s.isdigit()`; digits of other scripts than 0 to 9 count as no digits
unfoldable pub is_digits : String → Bool
unfolding all_digits
is_digits s = not (s == "") && all_digits s

-- `s.lstrip(c)` for one character, given by its code
unfoldable pub strip_left_of : ℕ → String → String
strip_left_of n String.[] = ""
strip_left_of n (String.◌∷◌ c s) =
    let rest = strip_left_of n s in if eqb (code c) n then rest else String.◌∷◌ c s

-- the printable ASCII characters in order, and `chr(n)` of one, empty of any other number
abbrev pub printable_characters : String
printable_characters =
    " !\"#$%&'()*+,-./0123456789:;<=>?@ABCDEFGHIJKLMNOPQRSTUVWXYZ[\\]^_`abcdefghijklmnopqrstuvwxyz{|}~"

unfoldable pub printable : ℕ → String
unfolding char_text_at
printable n = if leb 32 n then char_text_at printable_characters (n - 32) else ""
