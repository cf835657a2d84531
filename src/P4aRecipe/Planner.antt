-- ===== src/P4aRecipe/Planner.antt =====
-- etroute_p4a.py: `P4aRecipePlanner`, and the dict that a plan is written as.
use etroute.Prelude.{Bool, true, false, not, List, [], ◌∷◌, map, if◌then◌else◌}
use etroute.Python.Text.{Text, codes}
use etroute.Python.Value.{bool, str, arr, obj, Items, nil, cons, Fields, end, field, contains}
use etroute.P4aRecipe.Kinds.{
  PackageKind, pure_python, pyproject, cython, compiled_extension, ndk, kind_value, RecipeStrategy,
  pip, pyproject_recipe, cython_recipe, compiled_components_recipe, ndk_recipe, strategy_value,
  supported, unknown, abi_value, Evidence, PackageInspection, AbiAssessment, RecipePlan,
}

abbrev known_abis : List Text
known_abis = codes "arm64-v8a" ∷ codes "armeabi-v7a" ∷ codes "x86_64" ∷ codes "x86" ∷ []

-- A row of the table `choices`.
pub record Choice : Type 0 where
  pub strategy : RecipeStrategy
  pub required : Bool
  pub generated : Bool
  pub reason : Text

unfoldable pub choices : PackageKind → Choice
choices pure_python = record {
  strategy = pip;
  required = false;
  generated = false;
  reason = codes "No compiled components detected; use normal p4a/pip packaging.";
}
choices pyproject = record {
  strategy = pyproject_recipe;
  required = true;
  generated = true;
  reason = codes "Modern pyproject package detected; scaffold a PyProjectRecipe.";
}
choices cython = record {
  strategy = cython_recipe;
  required = true;
  generated = true;
  reason = codes "Cython sources detected; Android cross-compilation is required.";
}
choices compiled_extension = record {
  strategy = compiled_components_recipe;
  required = true;
  generated = true;
  reason =
      codes
        "Native extension sources detected; use CompiledComponentsPythonRecipe as the initial strategy.";
}
choices ndk = record {
  strategy = ndk_recipe;
  required = true;
  generated = true;
  reason = codes "Android.mk/Application.mk detected; use an NDK-oriented private recipe.";
}

abbrev is_portable : PackageKind → Bool
is_portable pure_python = true
is_portable pyproject = true
is_portable _ = false

-- `_assess_abi`
unfoldable assess_abi : PackageInspection → Text → AbiAssessment
unfolding contains
assess_abi i abi =
    if not (contains known_abis abi)
    then record {
      abi = abi;
      status = unknown;
      reason = codes "ABI is not recognized by the ETroute planner.";
    }
    else if is_portable i.kind
    then record {
      abi = abi;
      status = supported;
      reason = codes "No source-tree evidence currently proves this ABI incompatible.";
    }
    else record {
      abi = abi;
      status = unknown;
      reason = codes "Native compilation is involved; confirm compatibility with a real p4a build.";
    }

unfoldable pub plan : PackageInspection → List Text → RecipePlan
unfolding choices assess_abi
plan i abis =
    let choice = choices i.kind in
    record {
      package_name = i.package_name;
      package_kind = i.kind;
      strategy = choice.strategy;
      reason = choice.reason;
      recipe_required = choice.required;
      generated_recipe_supported = choice.generated;
      abi_assessments = map (assess_abi i) abis;
      evidence = i.evidence;
    }

abbrev pub abi_entries : List AbiAssessment → Items
abi_entries [] = nil
abi_entries (a ∷ rest) =
    cons
      (obj (
        field (codes "abi") (str a.abi) (
          field (codes "status") (str (abi_value a.status))
            (field (codes "reason") (str a.reason) end))))
      (abi_entries rest)

-- `[asdict(e) for e in plan.evidence]`
abbrev evidence_entries : List Evidence → Items
evidence_entries [] = nil
evidence_entries (e ∷ rest) =
    cons
      (obj (
        field (codes "kind") (str e.kind)
          (field (codes "path") (str e.path) (field (codes "detail") (str e.detail) end))))
      (evidence_entries rest)

-- `_plan_dict`
unfoldable pub plan_dict : RecipePlan → Fields
plan_dict p = field (codes "package") (str p.package_name) (
    field (codes "package_kind") (str (kind_value p.package_kind)) (
      field (codes "strategy") (str (strategy_value p.strategy)) (
        field (codes "reason") (str p.reason) (
          field (codes "recipe_required") (bool p.recipe_required) (
            field (codes "generated_recipe_supported") (bool p.generated_recipe_supported) (
              field (codes "abi_assessments") (arr (abi_entries p.abi_assessments))
                (field (codes "evidence") (arr (evidence_entries p.evidence)) end)))))))
