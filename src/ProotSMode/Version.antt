-- ===== src/ProotSMode/Version.antt =====
-- tools/verify_proot_s_mode.py: `detect_version`, the two patterns written out.
use etroute.Prelude.{
  ℕ, ◌≡◌, refl, Bool, true, false, not, ◌&&◌, ◌||◌, Option, none, some, [], ◌∷◌, ◌++◌, ltb, leb,
  ◌==◌, if◌then◌else◌,
}
use etroute.Python.Text.{Text, codes, is_space}
use etroute.ProotSMode.Records.{behind_word, behind_spaces}

abbrev is_digit : ℕ → Bool
is_digit c = leb 48 c && leb c 57

-- `\w`
unfoldable pub is_word : (ℕ → Bool) → ℕ → Bool
is_word wide c =
    if ltb c 128
    then is_digit c || (leb b'A' c && leb c b'Z') || (leb b'a' c && leb c b'z') || c == b'_'
    else wide c

-- The longest prefix whose characters satisfy a test, and what is behind it.
unfoldable span : (ℕ → Bool) → Text → Text × Text
span test [] = ([], [])
span test (c ∷ s) = let (run, rest) = span test s in if test c then (c ∷ run, rest) else ([], c ∷ s)

-- `[0-9][^\s,;]*`
unfoldable version_at : Text → Option Text
unfolding span is_space
version_at [] = none
version_at (c ∷ s) =
    if is_digit c
    then some (c ∷ (span (λ d. not (is_space d || d == b',' || d == b';')) s).0)
    else none

abbrev version_behind : Option Text → Option Text
version_behind none = none
version_behind (some s) = version_at s

abbrev spaces_behind : Option Text → Option Text
spaces_behind none = none
spaces_behind (some s) = behind_spaces s

-- `(?:\s+version)?\s+([0-9][^\s,;]*)` behind `proot`: a version and the word `version` begin differently.
abbrev named_version : Option Text → Option Text
named_version none = none
named_version (some s) = elim (behind_word (codes "version") s) [
  | some t ↦ version_behind (behind_spaces t)
  | none ↦ version_at s
]

unfoldable pub match_named : Text → Option Text
unfolding behind_word behind_spaces version_at
match_named s = named_version (spaces_behind (behind_word (codes "proot") s))

abbrev not_empty_run : Text × Text → Option (Text × Text)
not_empty_run ([], rest) = none
not_empty_run (c ∷ run, rest) = some (c ∷ run, rest)

-- `[0-9]+\.`
abbrev dotted : Option (Text × Text) → Option (Text × Text)
dotted none = none
dotted (some (run, [])) = none
dotted (some (run, c ∷ rest)) = if c == b'.' then some (run ++ (c ∷ []), rest) else none

unfoldable digits_at : Text → Option (Text × Text)
unfolding span
digits_at s = not_empty_run (span is_digit s)

abbrev then_digits : Option (Text × Text) → Option (Text × Text)
then_digits none = none
then_digits (some (before, s)) = elim (digits_at s) [
  | none ↦ none
  | some (run, rest) ↦ some (before ++ run, rest)
]

-- `\b` behind a digit
abbrev at_end : (ℕ → Bool) → Text → Bool
at_end wide [] = true
at_end wide (c ∷ s) = not (is_word wide c)

abbrev with_suffix : (ℕ → Bool) → Text → Text → Option (Text × Text) → Option Text
with_suffix wide version rest none = some version
with_suffix wide version rest (some (run, behind)) =
    if at_end wide behind then some (version ++ (b'-' ∷ run)) else some version

-- `(?:-[0-9]+)?\b` behind the three numbers: a suffix that a letter follows is left out.
unfoldable ended : (ℕ → Bool) → Option (Text × Text) → Option Text
unfolding digits_at is_word
ended wide none = none
ended wide (some (version, [])) = some version
ended wide (some (version, c ∷ rest)) =
    if c == b'-'
    then with_suffix wide version rest (digits_at rest)
    else if is_word wide c
    then none
    else some version

-- `([0-9]+\.[0-9]+\.[0-9]+(?:-[0-9]+)?)\b`
unfoldable pub match_numbers : (ℕ → Bool) → Text → Option Text
unfolding digits_at ended
match_numbers wide s = ended wide (then_digits (dotted (then_digits (dotted (digits_at s)))))

-- `pattern.search(text)` for a pattern that begins with `\b` and a word character; the flag says
-- whether a word character stands before the text.
unfoldable pub search_from : (ℕ → Bool) → (Text → Option Text) → Bool → Text → Option Text
unfolding is_word
search_from wide match after_word [] = none
search_from wide match after_word (c ∷ s) =
    let later = search_from wide match (is_word wide c) s in
    if after_word
    then later
    else elim (match (c ∷ s)) [ some version ↦ some version | none ↦ later ]

unfoldable pub detect_version : (ℕ → Bool) → Text → Option Text
unfolding search_from match_named match_numbers
detect_version wide text = elim (search_from wide match_named false text) [
  | some version ↦ some version
  | none ↦ search_from wide (match_numbers wide) false text
]

detects : detect_version (λ c. false) (codes "PRoot version 5.4.0-1, x") ≡ some (codes "5.4.0-1")
unfolding detect_version is_space
detects = refl

detects_numbers : detect_version (λ c. false) (codes "v1.2.3 2.0.1-7b") ≡ some (codes "2.0.1")
unfolding detect_version
detects_numbers = refl
