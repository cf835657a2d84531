-- ===== src/P4aRecipe/Classifier/Reading.antt =====
-- etroute_p4a.py: what the classifier reads from texts: the suffix of a path, the package name that a
-- directory suggests and the build backend of a pyproject.toml.
use etroute.Prelude.{
  ℕ, Bool, false, not, ◌&&◌, ◌||◌, ◌≡◌, refl, Option, none, some, [], ◌∷◌, leb, ◌==◌, if◌then◌else◌,
}
use etroute.Python.Text.{Text, codes, starts_with, strip_left, is_space}

-- `[A-Za-z0-9_.-]`
unfoldable pub is_name_char : ℕ → Bool
is_name_char c =
    (leb b'A' c && leb c b'Z')
    || (leb b'a' c && leb c b'z')
    || (leb b'0' c && leb c b'9')
    || c == b'_'
    || c == b'.'
    || c == b'-'

-- `re.sub(r"[^A-Za-z0-9_.-]+", "-", text)`; the flag says whether the character before was replaced.
unfoldable replace_others : Bool → Text → Text
unfolding is_name_char
replace_others inside [] = []
replace_others inside (c ∷ s) =
    let rest = replace_others (not (is_name_char c)) s in
    if is_name_char c then c ∷ rest else if inside then rest else b'-' ∷ rest

-- `s.strip("-")`
unfoldable strip_dashes_left : Text → Text
strip_dashes_left [] = []
strip_dashes_left (c ∷ s) = let rest = strip_dashes_left s in if c == b'-' then rest else c ∷ s

abbrev keep_dash : ℕ → Text → Text
keep_dash c [] = if c == b'-' then [] else c ∷ []
keep_dash c (d ∷ s) = c ∷ d ∷ s

unfoldable strip_dashes_right : Text → Text
strip_dashes_right [] = []
strip_dashes_right (c ∷ s) = keep_dash c (strip_dashes_right s)

abbrev or_package : Text → Text
or_package [] = codes "package"
or_package (c ∷ s) = c ∷ s

-- `_infer_name`, of the name of the root
unfoldable pub infer_from : Text → Text
unfolding replace_others strip_dashes_left strip_dashes_right
infer_from name = or_package (strip_dashes_right (strip_dashes_left (replace_others false name)))

-- `_read_build_backend`: the first place where
-- `build-backend\s*=\s*["']([^"']+)["']` matches, and what is between the quotes.
abbrev is_quote : ℕ → Bool
is_quote c = c == 34 || c == 39

unfoldable until_quote : Text → Option Text
until_quote [] = none
until_quote (c ∷ s) = elim (until_quote s) [
  | none ↦ if is_quote c then some [] else none
  | some t ↦ if is_quote c then some [] else some (c ∷ t)
]

abbrev not_empty : Option Text → Option Text
not_empty none = none
not_empty (some []) = none
not_empty (some (c ∷ s)) = some (c ∷ s)

unfoldable quoted : Text → Option Text
unfolding until_quote
quoted [] = none
quoted (c ∷ s) = if is_quote c then not_empty (until_quote s) else none

unfoldable assigned : Text → Option Text
unfolding quoted strip_left
assigned [] = none
assigned (c ∷ s) = if c == b'=' then quoted (strip_left s) else none

abbrev rest_after : Text → Text → Text
rest_after [] s = s
rest_after (d ∷ key) [] = []
rest_after (d ∷ key) (c ∷ s) = rest_after key s

unfoldable match_backend : Text → Option Text
unfolding starts_with assigned strip_left
match_backend s =
    if starts_with s (codes "build-backend")
    then assigned (strip_left (rest_after (codes "build-backend") s))
    else none

unfoldable pub read_build_backend : Text → Option Text
unfolding match_backend
read_build_backend [] = none
read_build_backend (c ∷ s) = elim (match_backend (c ∷ s)) [
  | some t ↦ some t
  | none ↦ read_build_backend s
]

reads_backend : read_build_backend (codes "[x]\nbuild-backend = \"hatch\"\n") ≡ some (codes "hatch")
unfolding read_build_backend is_space
reads_backend = refl

infers : infer_from (codes "--my app++1") ≡ codes "my-app-1"
unfolding infer_from
infers = refl
