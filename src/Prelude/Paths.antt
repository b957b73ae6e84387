-- ===== src/Prelude/Paths.antt =====
-- What the program uses of Python's `Path`, on texts.
use Prim.Native.String.{String, ◌++◌ as ◌<>◌}
use mathlib.Core.Bool.{Bool, not, ◌||◌}
use mathlib.Core.List.{List, [], ◌∷◌}
use text.Mathlib.Text.{◌==◌}
use arch_installer.Prelude.Tests.{if◌then◌else◌}
use arch_installer.Prelude.Text.{split_on, last_or, join}

is_path_part : String → Bool
is_path_part part = not (part == "" || part == ".")

keep_parts : List String → List String
unfolding is_path_part
keep_parts [] = []
keep_parts (part ∷ parts) =
    let rest = keep_parts parts in if is_path_part part then part ∷ rest else rest

-- `Path(s).parts`, without the root
unfoldable pub path_parts : String → List String
unfolding keep_parts
path_parts s = keep_parts (split_on 47 s)

-- `Path(s).name`
unfoldable pub path_name : String → String
path_name s = last_or "" (path_parts s)

all_but_last : List String → List String
all_but_last [] = []
all_but_last (x ∷ []) = []
all_but_last (x ∷ (y ∷ ys)) = x ∷ all_but_last (y ∷ ys)

-- `str(Path(s).parent)` of an absolute path
unfoldable pub path_parent : String → String
unfolding all_but_last
path_parent s = "/" <> join "/" (all_but_last (path_parts s))
