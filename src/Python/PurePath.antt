-- ===== src/Python/PurePath.antt =====
-- `pathlib.PurePosixPath`: the root and the names of a path, its text and the tests on it.
pub mod Laws
use etroute.Prelude.{
  ℕ, ◌≡◌, refl, Bool, true, false, not, ◌&&◌, List, [], ◌∷◌, ◌++◌, any, length, if◌then◌else◌, ◌==◌,
}
use etroute.Python.Text.{Text, codes, text_eq}

abbrev pub slash : ℕ
slash = b'/'

-- Two leading slashes are a root of their own; three or more are one.
pub data Root : Type 0 where
  relative single double : Root

pub record PurePath : Type 0 where
  pub root : Root
  pub names : List Text

unfoldable pub third_root : Text → Root
third_root [] = double
third_root (e ∷ s) = if e == slash then single else double

unfoldable pub second_root : Text → Root
unfolding third_root
second_root [] = single
second_root (d ∷ s) = if d == slash then third_root s else single

unfoldable pub root_of : Text → Root
unfolding second_root
root_of [] = relative
root_of (c ∷ s) = if c == slash then second_root s else relative

-- `s.split("/")`
abbrev pub push : ℕ → List Text → List Text
push c [] = (c ∷ []) ∷ []
push c (w ∷ ws) = (c ∷ w) ∷ ws

unfoldable pub split : Text → List Text
split [] = [] ∷ []
split (c ∷ s) = let words = split s in if c == slash then [] ∷ words else push c words

-- Empty names and `.` are dropped. The slashes of the root give empty names only.
unfoldable pub is_name : Text → Bool
unfolding text_eq
is_name w = not (length w == 0) && not (text_eq w (codes "."))

unfoldable pub keep_names : List Text → List Text
unfolding is_name
keep_names [] = []
keep_names (w ∷ ws) = let rest = keep_names ws in if is_name w then w ∷ rest else rest

unfoldable pub parse : Text → PurePath
unfolding root_of split keep_names
parse s = record { root = root_of s; names = keep_names (split s) }

-- `"/".join(names)`
unfoldable pub join : List Text → Text
join [] = []
join (w ∷ []) = w
join (w ∷ v ∷ ws) = w ++ (slash ∷ join (v ∷ ws))

abbrev pub or_dot : Text → Text
or_dot [] = codes "."
or_dot (c ∷ s) = c ∷ s

-- `str(path)`
unfoldable pub show : PurePath → Text
unfolding join
show p = elim p.root [
  | relative ↦ or_dot (join p.names)
  | single ↦ slash ∷ join p.names
  | double ↦ slash ∷ slash ∷ join p.names
]

unfoldable pub is_absolute : PurePath → Bool
is_absolute p = elim p.root [ relative ↦ false | _ ↦ true ]

-- `".." in path.parts`
unfoldable pub has_parent_part : PurePath → Bool
unfolding text_eq
has_parent_part p = any (λ w. text_eq w (codes "..")) p.names

shown : show (parse (codes "//a//b/./c/")) ≡ codes "//a/b/c"
unfolding show parse
shown = refl
