-- ===== src/P4aRecipe/Generator/Laws.antt =====
-- etroute_p4a.py: where a recipe is written.
use etroute.Prelude.{
  ℕ, ◌≡◌, refl, false, ◌||◌, List, [], ◌∷◌, ◌++◌, All, ◌==◌, arith, if◌then◌else◌, Bool-cases, inl,
  inr, ap,
}
use etroute.Python.Text.{Text, codes, text_eq}
use etroute.Python.PurePath.{PurePath, parse, split, push, slash, is_name, keep_names, relative}
use etroute.P4aRecipe.Kinds.{RecipePlan}
use etroute.P4aRecipe.Generator.{Target, underscored, join_path, recipe_name, recipe_dir}

NoDot : Text → Type 0
NoDot = All (λ c. (c == b'.') ≡ false)

underscored-NoDot : (s : Text) → NoDot (underscored s)
unfolding underscored NoDot
underscored-NoDot [] = tt
underscored-NoDot (c ∷ s) = (no_dot c, underscored-NoDot s)
  where
    no_dot : (c : ℕ) → ((if c == b'-' || c == b'.' then b'_' else c) == b'.') ≡ false
    no_dot c = ground arith

push-NoDot : (c : ℕ) (ws : List Text) → (c == b'.') ≡ false → All NoDot ws → All NoDot (push c ws)
unfolding NoDot
push-NoDot c [] h k = ((h, tt), tt)
push-NoDot c (w ∷ ws) h k = ((h, k.0), k.1)

split-NoDot : (s : Text) → NoDot s → All NoDot (split s)
unfolding split NoDot
split-NoDot [] h = (tt, tt)
split-NoDot (c ∷ s) h = elim (Bool-cases (c == slash)) [
  | inl e ↦ rw e (tt, split-NoDot s h.1)
  | inr e ↦ rw e (push-NoDot c (split s) h.0 (split-NoDot s h.1))
]

abbrev IsNoParent : Text → Type 0
IsNoParent w = text_eq w (codes "..") ≡ false

NoDot-IsNoParent : (w : Text) → NoDot w → IsNoParent w
unfolding NoDot text_eq
NoDot-IsNoParent [] h = refl
NoDot-IsNoParent (c ∷ w) h = ground (arith, h.0)

keep_names-IsNoParent : (ws : List Text) → All NoDot ws → All IsNoParent (keep_names ws)
unfolding keep_names
keep_names-IsNoParent [] h = tt
keep_names-IsNoParent (w ∷ ws) h = elim (Bool-cases (is_name w)) [
  | inl e ↦ rw (e, keep_names) (NoDot-IsNoParent w h.0, keep_names-IsNoParent ws h.1)
  | inr e ↦ rw (e, keep_names) (keep_names-IsNoParent ws h.1)
]

join_path-relative :
    (p added : PurePath)
    → added.root ≡ relative
    → join_path p added ≡ record { root = p.root; names = p.names ++ added.names }
unfolding join_path
join_path-relative p added h = rw (h, join_path) refl

parse-IsNoParent : (s : Text) → NoDot s → All IsNoParent (parse s).names
unfolding parse
parse-IsNoParent s h = keep_names-IsNoParent (split s) (split-NoDot s h)

module _ {S : Type 0} (t : Target S) where
  recipe_name-IsNoParent : (p : RecipePlan) → All IsNoParent (parse (recipe_name t p)).names
  unfolding recipe_name
  recipe_name-IsNoParent p = parse-IsNoParent _ (underscored-NoDot _)

  -- A recipe is written below the output directory, and never by way of `..`, if its name does not
  -- begin with a slash.
  pub recipe_dir-below :
      (p : RecipePlan) (output_root : Text)
      → (parse (recipe_name t p)).root ≡ relative
      → ((recipe_dir t p output_root).root ≡ (parse output_root).root)
        × ((below : List Text) × ((recipe_dir t p output_root).names
              ≡ (parse output_root).names ++ below)
            × All (λ w. text_eq w (codes "..") ≡ false) below)
  unfolding recipe_dir
  recipe_dir-below p output_root h =
      let joined = join_path-relative (parse output_root) (parse (recipe_name t p)) h in
      (
        ap (λ (q : PurePath). q.root) joined,
        (
          (parse (recipe_name t p)).names,
          ap (λ (q : PurePath). q.names) joined,
          recipe_name-IsNoParent p,
        ),
      )
