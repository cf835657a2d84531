-- ===== src/ProotSMode/PathSets/Laws.antt =====
-- tools/verify_proot_s_mode.py: lists of paths up to order and repetition, and their comparison.
use mathlib.Core.Quot
use mathlib.Core.Quot.{Quot, Quot-set}
use etroute.Prelude.{
  ◌≡◌, refl, Bool, true, false, ◌||◌, List, [], ◌∷◌, arith, Bool-cases, inl, inr, ap, sym, subst,
  if-cases, if-true, ◌⊎◌, ◌∙◌,
}
use etroute.Python.Text.{Text, text_eq, text_eq→eq, text_eq_refl}
use etroute.Python.Value.{contains, without}
use etroute.ProotSMode.PathSets.{unique}

abbrev SameMembers : List Text → List Text → Type 0
SameMembers xs ys = (p : Text) → contains xs p ≡ contains ys p

-- A set of paths.
abbrev PathSet : Type 0
PathSet = Quot SameMembers

abbrev pub path_set : List Text → PathSet
path_set = Quot.mk

unfoldable is_member : Text → PathSet → Bool
is_member p = Quot.lift (hlevel) (λ xs. contains xs p) λ xs ys h. h p

pub path_set-exact : {xs ys : List Text} → path_set xs ≡ path_set ys → SameMembers xs ys
unfolding is_member
path_set-exact e p = ap (is_member p) e

abbrev Within : List Text → List Text → Type 0
Within a b = (p : Text) → contains a p ≡ true → contains b p ≡ true

member_cases :
    (k p : Text) (ks : List Text) → contains (k ∷ ks) p ≡ true → (k ≡ p) ⊎ (contains ks p ≡ true)
unfolding contains
member_cases k p ks h = elim (Bool-cases (text_eq k p)) [
  | inl e ↦ inl (text_eq→eq k p e)
  | inr e ↦ inr (or_false _ _ e h)
]
  where
    or_false : (s t : Bool) → s ≡ false → (s || t) ≡ true → t ≡ true
    or_false s t e h = ground arith

member_self : (k : Text) (ks : List Text) → contains (k ∷ ks) k ≡ true
unfolding contains
member_self k ks = rw (text_eq_refl k) refl

member_there : (k p : Text) (ks : List Text) → contains ks p ≡ true → contains (k ∷ ks) p ≡ true
unfolding contains
member_there k p ks h = or_true (text_eq k p) _ h
  where
    or_true : (s t : Bool) → t ≡ true → (s || t) ≡ true
    or_true s t h = ground arith

pub without-Within : (a b : List Text) → without a b ≡ [] → Within a b
unfolding without
without-Within [] b h p m = absurd (none_in p m)
  where
    none_in : (p : Text) → contains [] p ≡ true → ⊥
    none_in p m = cc
without-Within (k ∷ ks) b h p m =
    if-cases (λ r. r ≡ [] → contains b p ≡ true) (contains b k)
      (λ there rest. elim (member_cases k p ks m) [
        | inl e ↦ subst (λ q. contains b q ≡ true) e there
        | inr later ↦ without-Within ks b rest p later
      ])
      (λ absent e. cc) h

pub Within-without : (a b : List Text) → Within a b → without a b ≡ []
unfolding without
Within-without [] b h = refl
Within-without (k ∷ ks) b h =
    if-true (contains b k) _ _ (h k (member_self k ks))
    ∙ Within-without ks b λ p m. h p (member_there k p ks m)

pub Within-SameMembers : (a b : List Text) → Within a b → Within b a → SameMembers a b
Within-SameMembers a b h k p = bool_ext _ _ (h p) (k p)
  where
    bool_ext : (s t : Bool) → (s ≡ true → t ≡ true) → (t ≡ true → s ≡ true) → s ≡ t
    bool_ext s t f g = ground arith

contains-cons :
    (q p : Text) (xs ys : List Text)
    → contains xs p ≡ contains ys p
    → contains (q ∷ xs) p ≡ contains (q ∷ ys) p
unfolding contains
contains-cons q p xs ys h = ap (λ b. text_eq q p || b) h

-- A member adds nothing.
contains-again :
    (q p : Text) (xs : List Text) → contains xs q ≡ true → contains xs p ≡ contains (q ∷ xs) p
unfolding contains
contains-again q p xs h = elim (Bool-cases (text_eq q p)) [
  | inl e ↦ subst (λ r. contains xs r ≡ true) (text_eq→eq q p e) h ∙ sym (rw e refl)
  | inr e ↦ rw e refl
]

pub unique-SameMembers : (ps : List Text) → SameMembers (unique ps) ps
unfolding unique
unique-SameMembers [] p = refl
unique-SameMembers (q ∷ ps) p =
    if-cases (λ r. contains r p ≡ contains (q ∷ ps) p) (contains (unique ps) q)
      (λ there.
        contains-again q p (unique ps) there
        ∙ contains-cons q p (unique ps) ps (unique-SameMembers ps p))
      λ absent. contains-cons q p (unique ps) ps (unique-SameMembers ps p)
