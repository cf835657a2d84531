-- ===== src/Tests/Recipe.antt =====
-- etroute_p4a.py at a concrete project: one file, setup.py beside Cython sources, under `/build`.
use etroute.Prelude.{
  ◌≡◌, refl, ◌⊎◌, Bool, true, false, none, some, ok, List, ◌>>=◌, raise_if, [], ◌∷◌, ◌++◌, Returns,
  All, append-nil, sym,
}
use etroute.Python.Text.{Text, codes, text_eq, lower}
use etroute.Python.Value.{contains}
use etroute.Python.PurePath.{parse, relative}
use etroute.P4aRecipe.Kinds.{pure_python, pyproject, ndk, PackageInspection, RecipePlan}
use etroute.P4aRecipe.Classifier.{Project, inspect, is_ignored}
use etroute.P4aRecipe.Classifier.Laws.{IsLawful, inspect-ignored_root}
use etroute.P4aRecipe.Planner.{plan}
use etroute.P4aRecipe.Generator.{Target, recipe_name, recipe_dir, join_path, underscored}
use etroute.P4aRecipe.Generator.Laws.{recipe_dir-below}
use etroute.P4aRecipe.Backend.{Payload, resolve, generate_capability}

abbrev project : Project
project = record {
  resolve = λ p. codes "/build/app";
  exists = λ p. true;
  is_dir = λ p. true;
  is_file = λ p. true;
  named = λ root name. [];
  all_under = λ root. root ∷ [];
  read_text = λ p. some [];
  lower_wide = λ before c behind. c ∷ [];
}

project-IsLawful : IsLawful project
project-IsLawful = record { under = λ root. (([], sym (append-nil _)), tt) }

abbrev target : Target Bool
target = record {
  make = λ s p. (true, ok tt);
  write = λ s p name text. (true, ok tt);
  dumps = λ d. [];
  lower_wide = λ before c behind. c ∷ [];
  capitalize = λ t. t;
}

abbrev inspection : PackageInspection
inspection = record {
  package_name = codes "My.App";
  root = codes "/build/app";
  kind = pyproject;
  evidence = [];
  has_pyproject = true;
  has_setup_py = true;
  has_cython = false;
  has_native_sources = false;
  has_android_mk = false;
  has_application_mk = false;
  pyproject_build_backend = none;
}

root_ignored : is_ignored (codes "/build/app") ≡ true
unfolding is_ignored parse contains text_eq
root_ignored = refl

inspect-ignored_root_example :
    Returns
      (λ i.
        (i.has_cython ≡ false)
        × (i.has_native_sources ≡ false)
        × ((i.kind ≡ ndk) ⊎ ((i.kind ≡ pyproject) ⊎ (i.kind ≡ pure_python))))
      (inspect project (codes "app") none)
inspect-ignored_root_example =
    inspect-ignored_root project (codes "app") none project-IsLawful root_ignored

abbrev planned : RecipePlan
planned = plan inspection []

name-relative : (parse (recipe_name target planned)).root ≡ relative
unfolding parse recipe_name underscored lower plan
name-relative = refl

recipe_dir-below_example :
    ((recipe_dir target planned (codes "out")).root ≡ (parse (codes "out")).root)
    × ((below : List Text) × ((recipe_dir target planned (codes "out")).names
          ≡ (parse (codes "out")).names ++ below)
        × All (λ w. text_eq w (codes "..") ≡ false) below)
recipe_dir-below_example = recipe_dir-below target planned (codes "out") name-relative

abbrev absolute : RecipePlan
absolute = plan (record inspection { package_name = codes "/etc/app" }) []

-- A package name that is an absolute path leaves the output directory.
absolute_escapes : recipe_dir target absolute (codes "out") ≡ parse (codes "/etc/app")
unfolding recipe_dir join_path parse recipe_name underscored lower plan
absolute_escapes = refl

abbrev payload : Payload
payload = record {
  project = some (codes "app");
  package_name = none;
  abis = none;
  output = none;
  version = none;
  url = none;
}

-- A project whose sources are not ignored: its recipe is generated.
abbrev sources : Project
sources = record project {
  resolve = λ p. codes "/src/app";
  all_under = λ root. (root ++ codes "/fast.pyx") ∷ [];
}

-- The generator is reached: the files have changed.
generated : (resolve sources target false generate_capability payload).0 ≡ true
unfolding resolve inspect ◌>>=◌ raise_if
generated = refl
