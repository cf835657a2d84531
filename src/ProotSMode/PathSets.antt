-- ===== src/ProotSMode/PathSets.antt =====
-- tools/verify_proot_s_mode.py: sets of paths, as lists of their members.
pub mod Laws
use etroute.Prelude.{Bool, true, false, List, [], ◌∷◌, if◌then◌else◌}
use etroute.Python.Text.{Text, text_eq}
use etroute.Python.Value.{contains, without}

-- `set(paths)`
unfoldable pub unique : List Text → List Text
unfolding contains
unique [] = []
unique (p ∷ ps) = let rest = unique ps in if contains rest p then rest else p ∷ rest

-- `a - b`
unfoldable pub minus : List Text → List Text → List Text
unfolding without
minus a b = without a b
