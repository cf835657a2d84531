-- ===== src/Python/Dict/Laws.antt =====
-- What a `dict` finds after `set` and `drop`.
use etroute.Prelude.{
  ◌≡◌, refl, Bool, true, false, Option, none, some, [], ◌∷◌, if◌then◌else◌, Bool-cases, inl, inr,
}
use etroute.Python.Text.{Text, text_eq, text_eq→eq}
use etroute.Python.Dict.{Dict, find, set, drop}

module _ {ℓ} {A : Type ℓ} where
  same_test :
      (p : Bool) (x y z : A) → (if p then x else z) ≡ (if p then x else (if p then y else z))
  same_test true x y z = refl
  same_test false x y z = refl

  swap_tests :
      (p q : Bool) (x y z : A)
      → (p ≡ true → q ≡ true → ⊥)
      → (if p then x else (if q then y else z)) ≡ (if q then y else (if p then x else z))
  swap_tests true true x y z h = absurd (h refl refl)
  swap_tests true false x y z h = refl
  swap_tests false true x y z h = refl
  swap_tests false false x y z h = refl

apart : (j id k : Text) → text_eq j id ≡ false → text_eq j k ≡ true → text_eq id k ≡ true → ⊥
apart j id k other at_j at_id = cc (text_eq→eq j k at_j, text_eq→eq id k at_id)

module _ {ℓ} {A : Type ℓ} where
  pub find-set :
      (key k : Text) (a : A) (d : Dict A)
      → find k (set key a d) ≡ (if text_eq key k then some a else find k d)
  unfolding find set
  find-set key k a [] = refl
  find-set key k a ((j, b) ∷ d) = elim (Bool-cases (text_eq j key)) [
    | inl same ↦
        rw (same, text_eq→eq j key same) (same_test (text_eq key k) (some a) (some b) (find k d))
    | inr other ↦
        rw (other, find-set key k a d)
          (swap_tests (text_eq j k) (text_eq key k) (some b) (some a) (find k d)
            (apart j key k other))
  ]

  pub find-drop :
      (key k : Text) (d : Dict A) → find k (drop key d) ≡ (if text_eq key k then none else find k d)
  unfolding find drop
  find-drop key k [] = same_none (text_eq key k)
    where
      same_none : (p : Bool) → ◌≡◌ {A = Option A} none (if p then none else none)
      same_none true = refl
      same_none false = refl
  find-drop key k ((j, b) ∷ d) = elim (Bool-cases (text_eq j key)) [
    | inl same ↦
        rw (same, find-drop key k d, text_eq→eq j key same)
          (same_test (text_eq key k) none (some b) (find k d))
    | inr other ↦
        rw (other, find-drop key k d)
          (swap_tests (text_eq j k) (text_eq key k) (some b) none (find k d) (apart j key k other))
  ]
