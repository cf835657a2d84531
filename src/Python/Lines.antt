-- ===== src/Python/Lines.antt =====
-- `str`: `t in s`, `partition` and `splitlines`.
use etroute.Prelude.{
  ℕ, ◌≡◌, refl, Bool, false, not, ◌&&◌, ◌||◌, Option, none, some, List, [], ◌∷◌, ◌==◌, ltb,
  if◌then◌else◌,
}
use etroute.Python.Text.{Text, codes, starts_with, is_space}

-- `part in s`
unfoldable pub occurs : Text → Text → Bool
unfolding starts_with
occurs part [] = starts_with [] part
occurs part (c ∷ s) = starts_with (c ∷ s) part || occurs part s

-- The text behind a prefix of it.
abbrev pub behind : Text → Text → Text
behind [] s = s
behind (d ∷ part) [] = []
behind (d ∷ part) (c ∷ s) = behind part s

-- `s.split(part, 1)`: what is before and behind the first occurrence
unfoldable pub partition : Text → Text → Option (Text × Text)
unfolding starts_with
partition part [] = if starts_with [] part then some ([], []) else none
partition part (c ∷ s) =
    let later = partition part s in
    if starts_with (c ∷ s) part
    then some ([], behind part (c ∷ s))
    else elim later [ none ↦ none | some (before, after) ↦ some (c ∷ before, after) ]

-- Where `splitlines` ends a line.
abbrev pub is_line_end : ℕ → Bool
is_line_end c =
    (ltb 9 c && ltb c 14) || (ltb 27 c && ltb c 31) || c == 0x85 || c == 0x2028 || c == 0x2029

abbrev put_on : ℕ → List Text → List Text
put_on c [] = (c ∷ []) ∷ []
put_on c (line ∷ lines) = (c ∷ line) ∷ lines

-- `s.splitlines()`; the flag says that the character before was a carriage return: with a line feed
-- behind it, it ends one line.
unfoldable lines_from : Bool → Text → List Text
lines_from after_return [] = []
lines_from after_return (c ∷ s) =
    let rest = lines_from (c == 13) s in
    if after_return && c == 10 then rest else if is_line_end c then [] ∷ rest else put_on c rest

unfoldable pub splitlines : Text → List Text
unfolding lines_from
splitlines s = lines_from false s

split_lines : splitlines (codes "a\r\nb\n\nc\n") ≡ codes "a" ∷ codes "b" ∷ [] ∷ codes "c" ∷ []
unfolding splitlines
split_lines = refl

-- `s.split(c)` for one character
unfoldable pub split_on : ℕ → Text → List Text
split_on at [] = [] ∷ []
split_on at (c ∷ s) = let words = split_on at s in if c == at then [] ∷ words else put_on c words

-- `s.split()`; the flag says whether the character before belongs to a word.
unfoldable words_from : Bool → Text → List Text
unfolding is_space
words_from inside [] = if inside then [] ∷ [] else []
words_from inside (c ∷ s) =
    let rest = words_from (not (is_space c)) s in
    if not (is_space c) then put_on c rest else if inside then [] ∷ rest else rest

unfoldable pub words : Text → List Text
unfolding words_from
words s = words_from false s

split_words : words (codes " Ran 12  tests ") ≡ codes "Ran" ∷ codes "12" ∷ codes "tests" ∷ []
unfolding words is_space
split_words = refl
