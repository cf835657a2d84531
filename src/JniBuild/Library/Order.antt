-- ===== src/JniBuild/Library/Order.antt =====
-- tools/verify_android_jni_build.py: `find_libraries` puts the best match first.
use etroute.Prelude.{
  ◌≡◌, Bool, true, false, not, ◌&&◌, ◌||◌, List, [], ◌∷◌, length, All, arith, leb, if-cases, subst,
}
use etroute.Python.Text.{Text}
use etroute.JniBuild.Library.{
  lib_name, Build, is_stripped, le_key, insert_by_key, sorted_by_key, matches_of, find_libraries,
}

le_key_total : (p q : Text) → le_key p q ≡ false → le_key q p ≡ true
unfolding le_key
le_key_total p q h = ground arith

le_key_trans : (p q r : Text) → le_key p q ≡ true → le_key q r ≡ true → le_key p r ≡ true
unfolding le_key
le_key_trans p q r h k = ground arith

-- The first path comes before all others.
abbrev LeadsAll : List Text → Type 0
LeadsAll [] = Unit
LeadsAll (p ∷ ps) = All (λ q. le_key p q ≡ true) ps

insert-All :
    (P : Text → Type 0) (p : Text) (qs : List Text) → P p → All P qs → All P (insert_by_key p qs)
unfolding insert_by_key
insert-All P p [] h k = (h, tt)
insert-All P p (q ∷ qs) h k =
    if-cases (All P) (le_key p q) (λ _. (h, k)) λ _. (k.0, insert-All P p qs h k.1)

All-mono : (P Q : Text → Type 0) (ps : List Text) → ((p : Text) → P p → Q p) → All P ps → All Q ps
All-mono P Q [] f h = tt
All-mono P Q (p ∷ ps) f h = (f p h.0, All-mono P Q ps f h.1)

insert-LeadsAll : (p : Text) (qs : List Text) → LeadsAll qs → LeadsAll (insert_by_key p qs)
unfolding insert_by_key
insert-LeadsAll p [] h = tt
insert-LeadsAll p (q ∷ qs) h =
    if-cases LeadsAll (le_key p q)
      (λ le. (
        le,
        All-mono (λ r. le_key q r ≡ true) (λ r. le_key p r ≡ true) qs
            (λ r k. le_key_trans p q r le k) h,
      ))
      λ gt. insert-All (λ r. le_key q r ≡ true) p qs (le_key_total p q gt) h

sorted-LeadsAll : (ps : List Text) → LeadsAll (sorted_by_key ps)
unfolding sorted_by_key
sorted-LeadsAll [] = tt
sorted-LeadsAll (p ∷ ps) = insert-LeadsAll p (sorted_by_key ps) (sorted-LeadsAll ps)

insert-All_back :
    (P : Text → Type 0) (p : Text) (qs : List Text) → All P (insert_by_key p qs) → P p × All P qs
unfolding insert_by_key
insert-All_back P p [] h = (h.0, tt)
insert-All_back P p (q ∷ qs) h =
    if-cases (λ rs. All P rs → P p × (P q × All P qs)) (le_key p q) (λ _ k. k)
      (λ _ k. let (here, there) = insert-All_back P p qs k.1 in (here, (k.0, there))) h

sorted-All_back : (P : Text → Type 0) (ps : List Text) → All P (sorted_by_key ps) → All P ps
unfolding sorted_by_key
sorted-All_back P [] h = tt
sorted-All_back P (p ∷ ps) h =
    let (here, there) = insert-All_back P p (sorted_by_key ps) h in
    (here, sorted-All_back P ps there)

le_key_refl : (p : Text) → le_key p p ≡ true
unfolding le_key
le_key_refl p = ground arith

leads_first :
    (first : Text) (rest qs : List Text)
    → LeadsAll qs
    → qs ≡ first ∷ rest
    → All (λ p. le_key first p ≡ true) qs
leads_first first rest [] h e = cc
leads_first first rest (q ∷ qs) h e =
    subst (λ r. All (λ p. le_key r p ≡ true) (q ∷ qs)) (head_eq q first qs rest e)
      (le_key_refl q, h)
  where
    head_eq : (q r : Text) (qs rs : List Text) → q ∷ qs ≡ r ∷ rs → q ≡ r
    head_eq q r qs rs e = cc

le_key-explains :
    (first p : Text)
    → le_key first p ≡ true
    → (is_stripped p ≡ true → is_stripped first ≡ true)
      × (is_stripped p ≡ is_stripped first → leb (length first) (length p) ≡ true)
unfolding le_key
le_key-explains first p le = explains (is_stripped first) (is_stripped p) _ le
  where
    explains :
        (s t l : Bool)
        → ((s && not t) || ((s || not t) && l)) ≡ true
        → (t ≡ true → s ≡ true) × (t ≡ s → l ≡ true)
    explains s t l h = ground arith

-- The library that is verified comes before every match of the ABI: it is a stripped one if any match
-- is, and no match of its sort has a shorter path.
pub find_libraries-first :
    (b : Build) (build_root abi first : Text) (rest : List Text)
    → find_libraries b build_root abi ≡ first ∷ rest
    → All
        (λ p.
          (is_stripped p ≡ true → is_stripped first ≡ true)
          × (is_stripped p ≡ is_stripped first → leb (length first) (length p) ≡ true))
        (matches_of abi (b.named build_root lib_name))
unfolding find_libraries
find_libraries-first b build_root abi first rest h =
    All-mono _ _ _ (λ p le. le_key-explains first p le)
      (sorted-All_back (λ p. le_key first p ≡ true) _
        (leads_first first rest _ (sorted-LeadsAll (matches_of abi (b.named build_root lib_name)))
          h))
