-- ===== src/Python/PathName.antt =====
-- `pathlib.PurePosixPath`: the name of a path and its suffix.
use etroute.Prelude.{◌≡◌, refl, Option, none, some, List, [], ◌∷◌, ◌==◌, if◌then◌else◌}
use etroute.Python.Text.{Text, codes}
use etroute.Python.PurePath.{parse}

abbrev last : Text → List Text → Text
last w [] = w
last w (v ∷ ws) = last v ws

-- `path.name`
unfoldable pub last_name : Text → Text
unfolding parse
last_name p = last [] (parse p).names

-- The text from the last dot on.
unfoldable from_dot : Text → Option Text
from_dot [] = none
from_dot (c ∷ s) = elim (from_dot s) [
  | some t ↦ some t
  | none ↦ if c == b'.' then some (c ∷ s) else none
]

-- `path.suffix`: a dot at either end of the name begins no suffix.
abbrev behind_dot : Option Text → Text
behind_dot (some (c ∷ d ∷ s)) = c ∷ d ∷ s
behind_dot _ = []

abbrev suffix_of_name : Text → Text
suffix_of_name [] = []
suffix_of_name (c ∷ s) = behind_dot (from_dot s)

unfoldable pub suffix : Text → Text
unfolding last_name from_dot
suffix p = suffix_of_name (last_name p)

has_suffix : suffix (codes "/a/b.tar.so") ≡ codes ".so"
unfolding suffix
has_suffix = refl
