-- ===== src/P4aRecipe/Generator.antt =====
-- etroute_p4a.py: `PrivateRecipeGenerator`, over a file system whose states are explicit.
pub mod Laws
use etroute.Prelude.{
  ℕ, Bool, true, false, not, ◌||◌, Option, none, some, List, [], ◌∷◌, ◌++◌, Result, ok, err, ◌==◌,
  if◌then◌else◌, String, ltb,
}
use etroute.Python.Text.{Text, codes, lower, upper}
use etroute.Python.Value.{Value, bool, int, pos, str, arr, obj, Fields, end, field, truthy, or_else}
use etroute.Python.PurePath.{PurePath, parse, show, relative, single, double, split}
use etroute.P4aRecipe.Kinds.{
  RecipeStrategy, pip, pyproject_recipe, cython_recipe, compiled_components_recipe, ndk_recipe,
  strategy_value, kind_value, RecipePlan, Failure, value_error, key_error, CallError, of_call,
}
use etroute.P4aRecipe.Planner.{abi_entries}

-- The files that recipes are written to, and the interpreter's tables. A call that raises may have
-- changed files: `write_text` empties the file before it finds that its text cannot be encoded.
pub record Target (S : Type 0) : Type 0 where
  -- `path.mkdir(parents=True, exist_ok=True)`
  pub make : S → PurePath → S × Result CallError (Unit {0})
  -- `(path / name).write_text(text, encoding="utf-8")`
  pub write : S → PurePath → Text → Text → S × Result CallError (Unit {0})
  -- `json.dumps(d, indent=2)`
  pub dumps : Fields → Text
  -- `str.lower` and `str.capitalize`
  pub lower_wide : Text → ℕ → Text → Text
  pub capitalize : Text → Text

-- `IMPORTS`: KeyError for a strategy that is not there.
unfoldable pub imports : RecipeStrategy → Option Text
imports pip = none
imports pyproject_recipe = some (codes "from pythonforandroid.recipe import PyProjectRecipe")
imports cython_recipe = some (codes "from pythonforandroid.recipe import CythonRecipe")
imports compiled_components_recipe =
    some (codes "from pythonforandroid.recipe import CompiledComponentsPythonRecipe")
imports ndk_recipe = some (codes "from pythonforandroid.recipe import NDKRecipe")

-- `s.replace("-", "_").replace(".", "_")`
unfoldable pub underscored : Text → Text
underscored [] = []
underscored (c ∷ s) = (if c == b'-' || c == b'.' then b'_' else c) ∷ underscored s

-- `path / other`: an absolute path replaces the path.
unfoldable pub join_path : PurePath → PurePath → PurePath
join_path p added = elim added.root [
  | relative ↦ record { root = p.root; names = p.names ++ added.names }
  | single ↦ added
  | double ↦ added
]

-- `s.split("_")`
abbrev push_to : ℕ → List Text → List Text
push_to c [] = (c ∷ []) ∷ []
push_to c (w ∷ ws) = (c ∷ w) ∷ ws

unfoldable split_underscore : Text → List Text
split_underscore [] = [] ∷ []
split_underscore (c ∷ s) =
    let words = split_underscore s in if c == b'_' then [] ∷ words else push_to c words

abbrev join_capitalized : (Text → Text) → List Text → Text
join_capitalized capitalize [] = []
join_capitalized capitalize ([] ∷ ws) = join_capitalized capitalize ws
join_capitalized capitalize ((c ∷ w) ∷ ws) = capitalize (c ∷ w) ++ join_capitalized capitalize ws

-- `"\n".join(lines)`
abbrev join_lines : List Text → Text
join_lines [] = []
join_lines (l ∷ []) = l
join_lines (l ∷ m ∷ ls) = l ++ (10 ∷ join_lines (m ∷ ls))

unfoldable pub manifest_of : RecipePlan → Fields
manifest_of p = field (codes "schema") (int (pos 1)) (
    field (codes "package") (str p.package_name) (
      field (codes "classification") (str (kind_value p.package_kind)) (
        field (codes "strategy") (str (strategy_value p.strategy)) (
          field (codes "recipe_required") (bool p.recipe_required) (
            field (codes "reason") (str p.reason)
              (field (codes "abis") (arr (abi_entries p.abi_assessments)) end))))))

-- The arguments of `generate` but for the plan, as `resolve` fills them.
pub record Wanted : Type 0 where
  pub output_root : Text
  pub version : Text
  pub source_url : Option Text

module _ {S : Type 0} (t : Target S) where
  unfoldable pub recipe_name : RecipePlan → Text
  unfolding lower underscored
  recipe_name p = underscored (lower t.lower_wide p.package_name)

  unfoldable pub recipe_dir : RecipePlan → Text → PurePath
  unfolding recipe_name join_path parse
  recipe_dir p output_root = join_path (parse output_root) (parse (recipe_name p))

  unfoldable class_name : RecipePlan → Text
  unfolding recipe_name split_underscore
  class_name p = join_capitalized t.capitalize (split_underscore (recipe_name p)) ++ codes "Recipe"

  unfoldable pub body_of : RecipePlan → Text → Wanted → Text
  unfolding class_name
  body_of p import_line w = join_lines (
      codes "# Generated by ETroute; review package metadata before production use."
      ∷ import_line
      ∷ []
      ∷ []
      ∷ (codes "class "
          ++ (class_name p ++ (codes "(" ++ (strategy_value p.strategy ++ codes "):"))))
      ∷ (codes "    version = \"" ++ (w.version ++ codes "\""))
      ∷ (codes "    url = \""
          ++ (or_else (truthy w.source_url)
                (codes "https://example.invalid/" ++ (p.package_name ++ codes "-{version}.tar.gz"))
              ++ codes "\""))
      ∷ []
      ∷ codes "    def get_recipe_env(self, arch):"
      ∷ codes "        env = super().get_recipe_env(arch)"
      ∷ codes "        # Add package-specific Android compiler/include/library environment here."
      ∷ codes "        return env"
      ∷ []
      ∷ []
      ∷ (codes "recipe = " ++ (class_name p ++ codes "()"))
      ∷ []
      ∷ [])

  -- The end of `generate`: each step fails, or goes on with the files that it leaves.
  unfoldable pub wrote_manifest :
      PurePath → S × Result CallError (Unit {0}) → S × Result Failure PurePath
  wrote_manifest directory (s, err e) = (s, err (of_call e))
  wrote_manifest directory (s, ok done) = (s, ok directory)

  unfoldable pub wrote_module :
      PurePath → RecipePlan → S × Result CallError (Unit {0}) → S × Result Failure PurePath
  unfolding manifest_of wrote_manifest
  wrote_module directory p (s, err e) = (s, err (of_call e))
  wrote_module directory p (s, ok written) =
      wrote_manifest directory
        (t.write s directory (codes "etroute-recipe.json") (t.dumps (manifest_of p)))

  unfoldable pub imported :
      S → PurePath → RecipePlan → Wanted → Option Text → S × Result Failure PurePath
  unfolding body_of wrote_module
  imported s directory p w none = (s, err key_error)
  imported s directory p w (some line) =
      wrote_module directory p (t.write s directory (codes "__init__.py") (body_of p line w))

  unfoldable pub made_directory :
      PurePath → RecipePlan → Wanted → S × Result CallError (Unit {0}) → S × Result Failure PurePath
  unfolding imports imported
  made_directory directory p w (s, err e) = (s, err (of_call e))
  made_directory directory p w (s, ok made) = imported s directory p w (imports p.strategy)

  unfoldable pub generate : S → RecipePlan → Wanted → S × Result Failure PurePath
  unfolding recipe_dir made_directory
  generate s p w =
      let directory = recipe_dir p w.output_root in
      let made = made_directory directory p w (t.make s directory) in
      if not p.recipe_required || not p.generated_recipe_supported
      then (s, err value_error)
      else made
