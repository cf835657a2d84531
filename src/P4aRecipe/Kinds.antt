-- ===== src/P4aRecipe/Kinds.antt =====
-- etroute_p4a.py: the enumerations and the data classes.
use etroute.Prelude.{Bool, Option, List}
use etroute.Python.Text.{Text, codes}
use etroute.Python.Value.{Value}

pub data PackageKind : Type 0 where
  pure_python pyproject cython compiled_extension ndk : PackageKind

abbrev pub kind_value : PackageKind → Text
kind_value pure_python = codes "pure_python"
kind_value pyproject = codes "pyproject"
kind_value cython = codes "cython"
kind_value compiled_extension = codes "compiled_extension"
kind_value ndk = codes "ndk"

pub data RecipeStrategy : Type 0 where
  pip pyproject_recipe cython_recipe compiled_components_recipe ndk_recipe : RecipeStrategy

abbrev pub strategy_value : RecipeStrategy → Text
strategy_value pip = codes "pip"
strategy_value pyproject_recipe = codes "PyProjectRecipe"
strategy_value cython_recipe = codes "CythonRecipe"
strategy_value compiled_components_recipe = codes "CompiledComponentsPythonRecipe"
strategy_value ndk_recipe = codes "NDKRecipe"

pub data AbiStatus : Type 0 where
  supported unknown : AbiStatus

abbrev pub abi_value : AbiStatus → Text
abi_value supported = codes "supported"
abi_value unknown = codes "unknown"

pub record Evidence : Type 0 where
  pub kind : Text
  pub path : Text
  pub detail : Text

pub record PackageInspection : Type 0 where
  pub package_name : Text
  pub root : Text
  pub kind : PackageKind
  pub evidence : List Evidence
  pub has_pyproject : Bool
  pub has_setup_py : Bool
  pub has_cython : Bool
  pub has_native_sources : Bool
  pub has_android_mk : Bool
  pub has_application_mk : Bool
  pub pyproject_build_backend : Option Text

pub record AbiAssessment : Type 0 where
  pub abi : Text
  pub status : AbiStatus
  pub reason : Text

pub record RecipePlan : Type 0 where
  -- `package`
  pub package_name : Text
  pub package_kind : PackageKind
  pub strategy : RecipeStrategy
  pub reason : Text
  pub recipe_required : Bool
  pub generated_recipe_supported : Bool
  pub abi_assessments : List AbiAssessment
  pub evidence : List Evidence

pub record CapabilityResult : Type 0 where
  pub capability : Text
  pub available : Bool
  pub backend : Text
  pub value : Value

-- The exceptions that leave the planner.
pub data Failure : Type 0 where
  file_not_found not_a_directory os_error value_error key_error : Failure
  -- the ValueError of a call that is given a text with NUL or one that cannot be encoded
  unencodable : Failure

-- What a call on the file system raises.
pub data CallError : Type 0 where
  call_os_error call_value_error : CallError

abbrev pub of_call : CallError → Failure
of_call call_os_error = os_error
of_call call_value_error = unencodable
