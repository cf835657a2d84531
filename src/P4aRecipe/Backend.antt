-- ===== src/P4aRecipe/Backend.antt =====
-- etroute_p4a.py: `P4aCapabilityBackend.resolve`, and the payload that the command line makes.
pub mod Laws
use etroute.Prelude.{
  ℕ, Bool, true, false, not, ◌||◌, Option, none, some, List, [], ◌∷◌, Result, ok, err, ◌==◌,
  if◌then◌else◌,
}
use etroute.Python.Text.{Text, codes, text_eq}
use etroute.Python.Value.{Value, bool, str, obj, Fields, end, field, or_else}
use etroute.Python.PurePath.{PurePath, show}
use etroute.P4aRecipe.Kinds.{PackageInspection, RecipePlan, CapabilityResult, Failure, key_error}
use etroute.P4aRecipe.Classifier.{Project, inspect}
use etroute.P4aRecipe.Planner.{plan, plan_dict}
use etroute.P4aRecipe.Generator.{Target, Wanted, generate}

abbrev backend_name : Text
backend_name = codes "p4a_recipe_planner"

-- The payload: the keys that are read, with values of the types that the command line gives them.
pub record Payload : Type 0 where
  pub project : Option Text
  -- `package`
  pub package_name : Option Text
  pub abis : Option (List Text)
  pub output : Option Text
  pub version : Option Text
  pub url : Option Text

abbrev pub plan_capability : Text
plan_capability = codes "p4a.recipe.plan"

abbrev pub generate_capability : Text
generate_capability = codes "p4a.recipe.generate"

abbrev pub abis_or : Option (List Text) → List Text
abis_or none = codes "arm64-v8a" ∷ []
abis_or (some abis) = abis

unfoldable pub wanted_of : Payload → Wanted
wanted_of payload = record {
  output_root = or_else payload.output (codes "p4a-recipes");
  version = or_else payload.version (codes "0.1.0");
  source_url = payload.url;
}

abbrev pub result_of : Text → Fields → CapabilityResult
result_of capability value = record {
  capability = capability;
  available = true;
  backend = backend_name;
  value = obj value;
}

abbrev pub unsupported_capability : Text → CapabilityResult
unsupported_capability capability = record {
  capability = capability;
  available = false;
  backend = backend_name;
  value = obj (field (codes "error") (str (codes "unsupported_capability")) end);
}

-- `{"generated": False, ...}` and `{"generated": True, ...}`
unfoldable pub not_generated : RecipePlan → Fields
unfolding plan_dict
not_generated p = field (codes "generated") (bool false) (
    field (codes "reason") (str (codes "Pure Python package does not require a private recipe."))
      (field (codes "plan") (obj (plan_dict p)) end))

unfoldable pub generated_at : PurePath → RecipePlan → Fields
unfolding show plan_dict
generated_at directory p = field (codes "generated") (bool true) (
    field (codes "recipe_directory") (str (show directory))
      (field (codes "plan") (obj (plan_dict p)) end))

module _ {S : Type 0} (project : Project) (t : Target S) where
  abbrev pub answered :
      Text → RecipePlan → S × Result Failure PurePath → S × Result Failure CapabilityResult
  answered capability p (s, ok directory) =
      (s, ok (result_of capability (generated_at directory p)))
  answered capability p (s, err e) = (s, err e)

  -- `resolve` behind the plan
  unfoldable pub resolve_plan :
      S → Text → Payload → RecipePlan → S × Result Failure CapabilityResult
  unfolding text_eq wanted_of not_generated generated_at generate
  resolve_plan s capability payload p =
      let generated = answered capability p (generate t s p (wanted_of payload)) in
      if not (text_eq capability generate_capability)
      then (s, ok (result_of capability (plan_dict p)))
      else if not p.recipe_required
      then (s, ok (result_of capability (not_generated p)))
      else generated

  abbrev pub resolve_inspected :
      S → Text → Payload → Result Failure PackageInspection → S × Result Failure CapabilityResult
  resolve_inspected s capability payload (err e) = (s, err e)
  resolve_inspected s capability payload (ok i) =
      resolve_plan s capability payload (plan i (abis_or payload.abis))

  abbrev pub resolve_project :
      S → Text → Payload → Option Text → S × Result Failure CapabilityResult
  resolve_project s capability payload none = (s, err key_error)
  resolve_project s capability payload (some root) =
      resolve_inspected s capability payload (inspect project root payload.package_name)

  unfoldable pub resolve : S → Text → Payload → S × Result Failure CapabilityResult
  unfolding text_eq inspect plan resolve_plan
  resolve s capability payload =
      let resolved = resolve_project s capability payload payload.project in
      if not (text_eq capability plan_capability || text_eq capability generate_capability)
      then (s, ok (unsupported_capability capability))
      else resolved
