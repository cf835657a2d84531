-- ===== src/Python/Text/Strip.antt =====
-- `strip` removes the spaces at both ends, and a stripped text is left as it is.
use etroute.Prelude.{ℕ, ◌≡◌, refl, ap, ◌∙◌, inl, inr, false, [], ◌∷◌, arith, Bool-cases}
use etroute.Python.Text.{Text, is_space, keep_left, strip_left, strip_right, strip}

-- The text has no space at its start.
abbrev NoLead : Text → Type 0
NoLead [] = Unit
NoLead (c ∷ s) = is_space c ≡ false

strip_left-NoLead : (s : Text) → NoLead (strip_left s)
unfolding strip_left
strip_left-NoLead [] = tt
strip_left-NoLead (c ∷ s) = elim (Bool-cases (is_space c)) [
  | inl e ↦ rw e (strip_left-NoLead s)
  | inr e ↦ rw e e
]

strip_left-eq : (s : Text) → NoLead s → strip_left s ≡ s
unfolding strip_left
strip_left-eq [] h = refl
strip_left-eq (c ∷ s) h = rw h

keep_left-NoLead : (c : ℕ) (s : Text) → is_space c ≡ false → NoLead (keep_left c s)
keep_left-NoLead c [] h = rw h h
keep_left-NoLead c (d ∷ s) h = h

strip_right-NoLead : (s : Text) → NoLead s → NoLead (strip_right s)
unfolding strip_right
strip_right-NoLead [] h = tt
strip_right-NoLead (c ∷ s) h = keep_left-NoLead c (strip_right s) h

strip_right-keep_left :
    (c : ℕ) (s : Text) → strip_right s ≡ s → strip_right (keep_left c s) ≡ keep_left c s
unfolding strip_right
strip_right-keep_left c [] h = ground arith
strip_right-keep_left c (d ∷ s) h = rw (h, keep_left)

strip_right_idem : (s : Text) → strip_right (strip_right s) ≡ strip_right s
unfolding strip_right
strip_right_idem [] = refl
strip_right_idem (c ∷ s) = strip_right-keep_left c (strip_right s) (strip_right_idem s)

pub strip_idem : (s : Text) → strip (strip s) ≡ strip s
unfolding strip
strip_idem s =
    ap strip_right (strip_left-eq _ (strip_right-NoLead _ (strip_left-NoLead s)))
    ∙ strip_right_idem (strip_left s)
