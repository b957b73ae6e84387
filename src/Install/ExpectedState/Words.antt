-- ===== src/Install/ExpectedState/Words.antt =====
-- expected_state.py: `shlex.quote`.
use Prim.Native.Char.{Char, code}
use arch_installer.Prelude.{String, ◌<>◌, ◌==◌, Bool, true, ◌&&◌, ◌||◌, leb, eqb, if◌then◌else◌}

-- `\w` in ASCII, and `@%+=:,./-`
unfoldable pub is_safe : Char → Bool
is_safe c =
    let n = code c in
    (leb 48 n && leb n 57)
    || (leb 65 n && leb n 90)
    || (leb 97 n && leb n 122)
    || eqb n 95
    || eqb n 64
    || eqb n 37
    || eqb n 43
    || eqb n 61
    || eqb n 58
    || eqb n 44
    || eqb n 46
    || eqb n 47
    || eqb n 45

unfoldable pub all_safe : String → Bool
all_safe String.[] = true
all_safe (String.◌∷◌ c s) = is_safe c && all_safe s

abbrev pub is_quote : Char → Bool
is_quote c = eqb (code c) 39

-- `s.replace("'", "'\"'\"'")`
unfoldable pub escape_quotes : String → String
escape_quotes String.[] = ""
escape_quotes (String.◌∷◌ c s) =
    let rest = escape_quotes s in if is_quote c then "'\"'\"'" <> rest else String.◌∷◌ c rest

-- `shlex.quote`
unfoldable pub quote : String → String
unfolding all_safe escape_quotes
quote s = if s == "" then "''" else if all_safe s then s else "'" <> escape_quotes s <> "'"
