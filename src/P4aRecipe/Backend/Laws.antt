-- ===== src/P4aRecipe/Backend/Laws.antt =====
-- etroute_p4a.py: which requests generate a recipe, and which exceptions leave `resolve`.
use etroute.Prelude.{Result, ok, err}
use etroute.Python.Text.{Text}
use etroute.Python.PurePath.{PurePath}
use etroute.P4aRecipe.Kinds.{Failure, value_error, key_error}

-- The failures that a call on the file system explains.
abbrev IsOutside : Failure → Type 0
IsOutside value_error = ⊥
IsOutside key_error = ⊥
IsOutside _ = Unit

-- Every failure is one of a call on the file system.
abbrev pub OnlyOutside : {A : Type 0} → Result Failure A → Type 0
OnlyOutside (ok a) = Unit
OnlyOutside (err e) = IsOutside e
