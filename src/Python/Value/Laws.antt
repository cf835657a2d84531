-- ===== src/Python/Value/Laws.antt =====
-- What `get` finds after `pop`, and which keys `without` leaves.
use etroute.Prelude.{
  suc, ap, ◌∙◌, ◌==◌, length, ◌≡◌, refl, true, none, some, List, [], ◌∷◌, arith, inl, inr,
  Bool-cases, All, if◌then◌else◌,
}
use etroute.Python.Text.{Text, text_eq, text_eq_refl, text_eq→eq}
use etroute.Python.Value.{
  Fields, end, field, get, put, pop, Value, without, contains, sorted, insert_sorted,
}

get-pop_self : (d : Fields) (k : Text) → get (pop d k) k ≡ none
unfolding get pop
get-pop_self end k = refl
get-pop_self (field j v d) k = ground (arith, get-pop_self d k)

-- No key is left exactly when every key is allowed.
without-allowed :
    (ks allowed : List Text) → without ks allowed ≡ [] → All (λ k. contains allowed k ≡ true) ks
unfolding without
without-allowed [] allowed h = tt
without-allowed (k ∷ ks) allowed h = elim (Bool-cases (contains allowed k)) [
  | inl e ↦ (e, without-allowed ks allowed (rw (e, without) at h))
  | inr e ↦ let absurd_h = rw (e, without) at h in cc absurd_h
]

length-insert_sorted : (s : Text) (ts : List Text) → length (insert_sorted s ts) ≡ suc (length ts)
unfolding insert_sorted
length-insert_sorted s [] = refl
length-insert_sorted s (t ∷ ts) = ground (arith, length-insert_sorted s ts)

length-sorted : (ts : List Text) → length (sorted ts) ≡ length ts
unfolding sorted
length-sorted [] = refl
length-sorted (t ∷ ts) = length-insert_sorted t (sorted ts) ∙ ap suc (length-sorted ts)

length-zero : (ts : List Text) → (length ts == 0) ≡ true → ts ≡ []
length-zero [] h = refl
length-zero (t ∷ ts) h = ground arith

-- The test `if unknown` on the sorted difference: all keys are allowed.
pub sorted-without-allowed :
    (ks allowed : List Text)
    → (length (sorted (without ks allowed)) == 0) ≡ true
    → All (λ k. contains allowed k ≡ true) ks
sorted-without-allowed ks allowed h =
    without-allowed ks allowed (length-zero _ (rw length-sorted at h))

pub get-put :
    (j k : Text) (v : Value) (d : Fields)
    → get (put j v d) k ≡ (if text_eq j k then some v else get d k)
unfolding get put
get-put j k v end = refl
get-put j k v (field i w d) = elim (Bool-cases (text_eq i j)) [
  | inl e ↦ rw (e, get) (ground (arith, text_eq→eq i j e))
  | inr e ↦
      rw (e, get) (ground (arith, get-put j k v d, text_eq→eq i k, text_eq→eq j k, text_eq_refl k))
]
