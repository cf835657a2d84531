-- ===== src/P4aRecipe/Classifier/Laws.antt =====
-- etroute_p4a.py: the kind that the classifier finds agrees with the files of the project.
use etroute.Prelude.{
  ◌≡◌, refl, ◌⊎◌, inl, inr, Bool, true, false, Option, List, [], ◌∷◌, ◌++◌, any, Returns,
  Returns-bind, Returns-raise_if, Returns-ok, Returns-any, All, arith, if◌then◌else◌, ap, ◌∙◌,
}
use etroute.Python.Text.{Text}
use etroute.Python.Value.{contains}
use etroute.Python.PurePath.{parse}
use etroute.P4aRecipe.Kinds.{PackageKind, pure_python, pyproject, cython, compiled_extension, ndk}
use etroute.P4aRecipe.Classifier.{
  Project, ignored_parts, is_ignored, is_wanted, keep, collect, kind_of, inspect, cython_suffixes,
  native_suffixes,
}

-- The choice of the kind, by the tests alone.
abbrev chosen : Bool → Bool → Bool → Bool → PackageKind
chosen makefiles cython_files native_files toml =
    if makefiles
    then ndk
    else if cython_files
    then cython
    else if native_files
    then compiled_extension
    else if toml
    then pyproject
    else pure_python

-- What a project lists under a root lies under it: the names of the root come first.
pub record IsLawful (t : Project) : Type 0 where
  pub under :
      (root : Text)
      → All
          (λ p. (rest : List Text) × ((parse p).names ≡ (parse root).names ++ rest))
          (t.all_under root)

any-append :
    (test : Text → Bool) (xs ys : List Text) → any test xs ≡ true → any test (xs ++ ys) ≡ true
any-append test [] ys h = cc
any-append test (x ∷ xs) ys h = ground (arith, any-append test xs ys)

module _ (t : Project) where
  ignored_unwanted :
      (suffixes : List Text) (p : Text) → is_ignored p ≡ true → is_wanted t suffixes p ≡ false
  unfolding is_wanted
  ignored_unwanted suffixes p h = ground (arith, h)

  keep-none :
      (test : Text → Bool) (ps : List Text) → All (λ p. test p ≡ false) ps → keep t test ps ≡ []
  unfolding keep
  keep-none test [] h = refl
  keep-none test (p ∷ ps) h = rw (h.0, keep-none test ps h.1) refl

  is_ignored-under :
      (root p : Text) (rest : List Text)
      → (parse p).names ≡ (parse root).names ++ rest
      → is_ignored root ≡ true
      → is_ignored p ≡ true
  unfolding is_ignored
  is_ignored-under root p rest e h =
      ap (any (contains ignored_parts)) e
      ∙ any-append (contains ignored_parts) (parse root).names rest h

  under-ignored :
      (root : Text) (suffixes ps : List Text)
      → is_ignored root ≡ true
      → All (λ p. (rest : List Text) × ((parse p).names ≡ (parse root).names ++ rest)) ps
      → All (λ p. is_wanted t suffixes p ≡ false) ps
  under-ignored root suffixes [] h under = tt
  under-ignored root suffixes (p ∷ ps) h ((rest, e), under) = (
    ignored_unwanted suffixes p (is_ignored-under root p rest e h),
    under-ignored root suffixes ps h under,
  )

  collect-ignored :
      (root : Text) (suffixes : List Text)
      → IsLawful t
      → is_ignored root ≡ true
      → collect t root suffixes ≡ []
  unfolding collect
  collect-ignored root suffixes law h =
      keep-none _ _ (under-ignored root suffixes _ h (law.under root))

  -- The parts that are ignored are looked for in the whole path: if the root itself has one among its
  -- own names (a checkout under `build`, say), no Cython or native source of the project counts, and an
  -- inspection that returns is NDK, pyproject or pure Python.
  pub inspect-ignored_root :
      (project_root : Text) (package_name : Option Text)
      → IsLawful t
      → is_ignored (t.resolve project_root) ≡ true
      → Returns
          (λ i.
            (i.has_cython ≡ false)
            × (i.has_native_sources ≡ false)
            × ((i.kind ≡ ndk) ⊎ ((i.kind ≡ pyproject) ⊎ (i.kind ≡ pure_python))))
          (inspect t project_root package_name)
  unfolding inspect kind_of
  inspect-ignored_root project_root package_name law h = Returns-raise_if _ _ _ λ there.
      Returns-raise_if _ _ _ λ dir. Returns-bind _ _ Returns-any λ backend _. Returns-ok _ (
        rw
          (
            collect-ignored (t.resolve project_root) cython_suffixes law h,
            collect-ignored (t.resolve project_root) native_suffixes law h,
          )
          (refl, refl, chosen_portable _ _))
    where
      chosen_portable :
          (m p : Bool)
          → (chosen m false false p ≡ ndk)
            ⊎ ((chosen m false false p ≡ pyproject) ⊎ (chosen m false false p ≡ pure_python))
      chosen_portable true p = inl refl
      chosen_portable false true = inr (inl refl)
      chosen_portable false false = inr (inr refl)
