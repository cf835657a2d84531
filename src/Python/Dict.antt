-- ===== src/Python/Dict.antt =====
-- A `dict` with text keys and values of any type: an entry that is set keeps its place.
pub mod Laws
use etroute.Prelude.{Bool, Option, none, some, List, [], ◌∷◌, if◌then◌else◌}
use etroute.Python.Text.{Text, text_eq}

abbrev pub Dict {ℓ} : Type ℓ → Type ℓ
Dict A = List (Text × A)

module _ {ℓ} {A : Type ℓ} where
  -- `d.get(key)`
  unfoldable pub find : Text → Dict A → Option A
  unfolding text_eq
  find key [] = none
  find key ((k, a) ∷ d) = if text_eq k key then some a else find key d

  -- `d[key] = value`
  unfoldable pub set : Text → A → Dict A → Dict A
  unfolding text_eq
  set key value [] = (key, value) ∷ []
  set key value ((k, a) ∷ d) = if text_eq k key then (k, value) ∷ d else (k, a) ∷ set key value d

  -- `d.pop(key, None)`, the dict behind it
  unfoldable pub drop : Text → Dict A → Dict A
  unfolding text_eq
  drop key [] = []
  drop key ((k, a) ∷ d) = let rest = drop key d in if text_eq k key then rest else (k, a) ∷ rest
