-- ===== src/P4aRecipe/Classifier.antt =====
-- etroute_p4a.py: `P4aRecipeClassifier`, over the files of a project.
pub mod Reading
pub mod Laws
use etroute.Prelude.{
  ℕ, zero, suc, Bool, true, false, not, ◌&&◌, ◌||◌, Option, none, some, List, [], ◌∷◌, ◌++◌, map,
  any, length, Result, ok, err, ◌>>=◌, ◌>>◌, raise_if, ◌==◌, if◌then◌else◌,
}
use etroute.Python.Text.{Text, codes, text_eq, lower}
use etroute.Python.Value.{contains, truthy}
use etroute.Python.PurePath.{parse}
use etroute.Python.FileSystem.{child}
use etroute.P4aRecipe.Kinds.{
  PackageKind, pure_python, pyproject, cython, compiled_extension, ndk, Evidence, PackageInspection,
  Failure, file_not_found, not_a_directory, os_error,
}
use etroute.P4aRecipe.Classifier.Reading.{infer_from, read_build_backend}
use etroute.Python.PathName.{suffix, last_name}

-- The files that a project root is asked for. Each path is its text; `none` is OSError.
pub record Project : Type 0 where
  -- `Path(text).resolve()`
  pub resolve : Text → Text
  pub exists : Text → Bool
  pub is_dir : Text → Bool
  pub is_file : Text → Bool
  -- `root.rglob(name)` for a name, and `root.rglob("*")`
  pub named : Text → Text → List Text
  pub all_under : Text → List Text
  -- `read_text(encoding="utf-8", errors="replace")`
  pub read_text : Text → Option Text
  -- `str.lower` beyond ASCII
  pub lower_wide : Text → ℕ → Text → Text

abbrev pub Checked : Type 0 → Type 0
Checked = Result Failure

abbrev pub native_suffixes : List Text
native_suffixes =
    codes ".c"
    ∷ codes ".cc"
    ∷ codes ".cpp"
    ∷ codes ".cxx"
    ∷ codes ".h"
    ∷ codes ".hpp"
    ∷ codes ".so"
    ∷ []

abbrev pub cython_suffixes : List Text
cython_suffixes = codes ".pyx" ∷ codes ".pxd" ∷ codes ".pxi" ∷ []

abbrev pub ignored_parts : List Text
ignored_parts =
    codes ".git"
    ∷ codes ".gradle"
    ∷ codes ".idea"
    ∷ codes ".venv"
    ∷ codes "venv"
    ∷ codes "build"
    ∷ codes "dist"
    ∷ codes "__pycache__"
    ∷ []

-- `any(part in IGNORED_PARTS for part in p.parts)`: the root `/` among the parts is none of them.
unfoldable pub is_ignored : Text → Bool
unfolding contains parse
is_ignored p = any (contains ignored_parts) (parse p).names

abbrev pub is_empty {ℓ} : {A : Type ℓ} → List A → Bool
is_empty [] = true
is_empty (x ∷ xs) = false

-- `items[:n]`
abbrev pub take {ℓ} : {A : Type ℓ} → ℕ → List A → List A
take zero xs = []
take (suc n) [] = []
take (suc n) (x ∷ xs) = x ∷ take n xs

abbrev evidence_of : Text → Text → Text → Evidence
evidence_of kind detail path = record { kind = kind; path = path; detail = detail }

-- `if test: evidence.append(e)`
abbrev if_evidence : Bool → Evidence → List Evidence
if_evidence test e = if test then e ∷ [] else []

module _ (t : Project) where
  unfoldable pub is_wanted : List Text → Text → Bool
  unfolding is_ignored suffix contains
  is_wanted suffixes p =
      t.is_file p && not (is_ignored p) && contains suffixes (lower t.lower_wide (suffix p))

  unfoldable pub keep : (Text → Bool) → List Text → List Text
  keep test [] = []
  keep test (p ∷ ps) = let rest = keep test ps in if test p then p ∷ rest else rest

  -- `_collect`: the given suffixes are in lower case.
  unfoldable pub collect : Text → List Text → List Text
  unfolding keep is_wanted
  collect root suffixes = keep (is_wanted suffixes) (t.all_under root)

  unfoldable pub kind_of : List Text → List Text → List Text → List Text → Bool → PackageKind
  kind_of android_mk application_mk cython_files native_files has_pyproject =
      if not (is_empty android_mk) || not (is_empty application_mk)
      then ndk
      else if not (is_empty cython_files)
      then cython
      else if not (is_empty native_files)
      then compiled_extension
      else if has_pyproject
      then pyproject
      else pure_python

  unfoldable gather : Text → List Text → List Text → List Text → List Text → List Evidence
  unfolding child
  gather root android_mk application_mk cython_files native_files =
      let pyproject_toml = child root (codes "pyproject.toml") in
      let setup_py = child root (codes "setup.py") in
      if_evidence (t.exists pyproject_toml)
        (evidence_of (codes "pyproject") (codes "pyproject.toml detected") pyproject_toml)
      ++ (if_evidence (t.exists setup_py)
            (evidence_of (codes "setup_py") (codes "setup.py detected") setup_py)
          ++ (map (evidence_of (codes "cython") (codes "Cython source detected"))
                (take 10 cython_files)
              ++ (map (evidence_of (codes "native") (codes "native source or binary detected"))
                    (take 10 native_files)
                  ++ (map (evidence_of (codes "android_mk") (codes "Android NDK makefile detected"))
                        android_mk
                      ++ map
                          (evidence_of (codes "application_mk")
                            (codes "Android NDK application makefile detected"))
                          application_mk))))

  abbrev pub or_os_error : Option Text → Checked Text
  or_os_error none = err os_error
  or_os_error (some text) = ok text

  -- `_read_build_backend(pyproject) if pyproject.exists() else None`
  unfoldable pub backend_of : Bool → Text → Checked (Option Text)
  unfolding read_build_backend
  backend_of false path = ok none
  backend_of true path = do text ← or_os_error (t.read_text path); ok (read_build_backend text)

  -- `package_name or self._infer_name(root)`
  abbrev name_or : Option Text → Text → Text
  name_or none root = infer_from (last_name root)
  name_or (some name) root = name

  unfoldable pub inspect : Text → Option Text → Checked PackageInspection
  unfolding child collect kind_of gather backend_of infer_from last_name
  inspect project_root package_name =
      let root = t.resolve project_root in
      let toml = child root (codes "pyproject.toml") in
      let android_mk = t.named root (codes "Android.mk") in
      let application_mk = t.named root (codes "Application.mk") in
      let cython_files = collect root cython_suffixes in
      let native_files = collect root native_suffixes in
      do
        raise_if (not (t.exists root)) file_not_found
        raise_if (not (t.is_dir root)) not_a_directory
        build_backend ← backend_of (t.exists toml) toml
        ok (record {
          package_name = name_or (truthy package_name) root;
          root = root;
          kind = kind_of android_mk application_mk cython_files native_files (t.exists toml);
          evidence = gather root android_mk application_mk cython_files native_files;
          has_pyproject = t.exists toml;
          has_setup_py = t.exists (child root (codes "setup.py"));
          has_cython = not (is_empty cython_files);
          has_native_sources = not (is_empty native_files);
          has_android_mk = not (is_empty android_mk);
          has_application_mk = not (is_empty application_mk);
          pyproject_build_backend = build_backend;
        })
