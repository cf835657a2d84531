-- ===== src/BuildRelease/Files.antt =====
-- tools/build_release.py: `included_files`, over the paths below the root.
use etroute.Prelude.{Bool, false, not, ◌&&◌, List, [], ◌∷◌, any, if◌then◌else◌}
use etroute.Python.Text.{Text, codes, text_eq}
use etroute.Python.Value.{contains, sorted}
use etroute.Python.PurePath.{parse}
use etroute.Python.PathName.{last_name, suffix}

abbrev excluded_parts : List Text
excluded_parts =
    codes "__pycache__"
    ∷ codes ".git"
    ∷ codes ".pytest_cache"
    ∷ codes ".mypy_cache"
    ∷ codes ".gradle"
    ∷ codes "build"
    ∷ []

abbrev excluded_suffixes : List Text
excluded_suffixes = codes ".pyc" ∷ codes ".pyo" ∷ []

-- `relative.parts and relative.parts[0] in {"release", "evidence"}`
abbrev is_output : List Text → Bool
is_output [] = false
is_output (part ∷ parts) = contains (codes "release" ∷ codes "evidence" ∷ []) part

unfoldable pub is_included : (Text → Bool) → Text → Bool
unfolding contains parse suffix last_name text_eq
is_included is_file relative =
    is_file relative
    && (not (any (contains excluded_parts) (parse relative).names)
        && (not (contains excluded_suffixes (suffix relative))
            && (not (is_output (parse relative).names)
                && not (text_eq (last_name relative) (codes "local.properties")))))

unfoldable pub kept : (Text → Bool) → List Text → List Text
unfolding is_included
kept is_file [] = []
kept is_file (p ∷ ps) =
    let rest = kept is_file ps in if is_included is_file p then p ∷ rest else rest

-- The texts are those that `relative_to(root).as_posix()` gives for `root.rglob("*")`.
unfoldable pub included_files : (Text → Bool) → List Text → List Text
unfolding kept sorted
included_files is_file below = sorted (kept is_file below)
