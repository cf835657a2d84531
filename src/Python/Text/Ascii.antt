-- ===== src/Python/Text/Ascii.antt =====
-- `strip` and `lower` on ASCII text: lower case is letter by letter and commutes with `strip`.
use etroute.Prelude.{
  ℕ, ◌≡◌, refl, ap, ◌∙◌, true, [], ◌∷◌, map, length, arith, All, ltb, Bool-cases, inl, inr, suc,
}
use etroute.Python.Text.{
  Text, is_space, keep_left, strip_left, strip_right, strip, lower, lower_from, lower_ascii,
}
use etroute.Python.Text.Clean.{IsClean}

abbrev pub IsAscii : Text → Type 0
IsAscii = All (λ c. ltb c 128 ≡ true)

lower_from-ascii :
    (wide : Text → ℕ → Text → Text) (before s : Text)
    → IsAscii s
    → lower_from wide before s ≡ map lower_ascii s
unfolding lower_from
lower_from-ascii wide before [] h = refl
lower_from-ascii wide before (c ∷ s) h = rw (h.0, lower_from-ascii wide (c ∷ before) s h.1)

is_space-lower_ascii : (c : ℕ) → is_space (lower_ascii c) ≡ is_space c
unfolding is_space
is_space-lower_ascii c = elim (Bool-cases (ltb c 91)) [
  | inl e ↦ ground arith
  | inr e ↦ ground arith
]

lower_ascii_idem : (c : ℕ) → lower_ascii (lower_ascii c) ≡ lower_ascii c
lower_ascii_idem c = ground arith

lower_ascii-ascii : (c : ℕ) → ltb c 128 ≡ true → ltb (lower_ascii c) 128 ≡ true
lower_ascii-ascii c h = ground arith

map-lower_ascii_idem : (s : Text) → map lower_ascii (map lower_ascii s) ≡ map lower_ascii s
map-lower_ascii_idem [] = refl
map-lower_ascii_idem (c ∷ s) = cc (lower_ascii_idem c, map-lower_ascii_idem s)

IsAscii-map : (s : Text) → IsAscii s → IsAscii (map lower_ascii s)
IsAscii-map [] h = tt
IsAscii-map (c ∷ s) h = (lower_ascii-ascii c h.0, IsAscii-map s h.1)

length-map : (s : Text) → length (map lower_ascii s) ≡ length s
length-map [] = refl
length-map (c ∷ s) = ap suc (length-map s)

strip_left-map : (s : Text) → strip_left (map lower_ascii s) ≡ map lower_ascii (strip_left s)
unfolding strip_left
strip_left-map [] = refl
strip_left-map (c ∷ s) = elim (Bool-cases (is_space c)) [
  | inl e ↦ rw (is_space-lower_ascii c, e) (strip_left-map s)
  | inr e ↦ rw (is_space-lower_ascii c, e)
]

keep_left-map :
    (c : ℕ) (s : Text)
    → keep_left (lower_ascii c) (map lower_ascii s) ≡ map lower_ascii (keep_left c s)
keep_left-map c [] = elim (Bool-cases (is_space c)) [
  | inl e ↦ rw (is_space-lower_ascii c, e)
  | inr e ↦ rw (is_space-lower_ascii c, e)
]
keep_left-map c (d ∷ s) = refl

strip_right-map : (s : Text) → strip_right (map lower_ascii s) ≡ map lower_ascii (strip_right s)
unfolding strip_right
strip_right-map [] = refl
strip_right-map (c ∷ s) =
    ap (keep_left (lower_ascii c)) (strip_right-map s) ∙ keep_left-map c (strip_right s)

strip-map : (s : Text) → strip (map lower_ascii s) ≡ map lower_ascii (strip s)
unfolding strip
strip-map s = ap strip_right (strip_left-map s) ∙ strip_right-map (strip_left s)

IsAscii-strip_left : (s : Text) → IsAscii s → IsAscii (strip_left s)
unfolding strip_left
IsAscii-strip_left [] h = tt
IsAscii-strip_left (c ∷ s) h = elim (Bool-cases (is_space c)) [
  | inl e ↦ rw e (IsAscii-strip_left s h.1)
  | inr e ↦ rw e h
]

IsAscii-keep_left : (c : ℕ) (s : Text) → ltb c 128 ≡ true → IsAscii s → IsAscii (keep_left c s)
IsAscii-keep_left c [] h k = elim (Bool-cases (is_space c)) [
  | inl e ↦ rw e tt
  | inr e ↦ rw e (h, tt)
]
IsAscii-keep_left c (d ∷ s) h k = (h, k)

IsAscii-strip_right : (s : Text) → IsAscii s → IsAscii (strip_right s)
unfolding strip_right
IsAscii-strip_right [] h = tt
IsAscii-strip_right (c ∷ s) h = IsAscii-keep_left c (strip_right s) h.0 (IsAscii-strip_right s h.1)

pub IsAscii-strip : (s : Text) → IsAscii s → IsAscii (strip s)
unfolding strip
IsAscii-strip s h = IsAscii-strip_right (strip_left s) (IsAscii-strip_left s h)

-- A clean ASCII text stays clean in lower case, and `lower` leaves the result as it is.
pub record IsLowered (wide : Text → ℕ → Text → Text) (maximum : ℕ) (t : Text) : Type 0 where
  pub clean : IsClean maximum t
  pub lowered : lower wide t ≡ t

pub lower-IsLowered :
    (wide : Text → ℕ → Text → Text) (maximum : ℕ) (t : Text)
    → IsAscii t
    → IsClean maximum t
    → IsLowered wide maximum (lower wide t)
unfolding lower
lower-IsLowered wide maximum t h c = rw (lower_from-ascii wide [] t h) (record {
  clean = record {
    stripped = strip-map t ∙ ap (map lower_ascii) c.stripped;
    not_empty = rw (length-map t) c.not_empty;
    bounded = rw (length-map t) c.bounded;
  };
  lowered = lower_from-ascii wide [] (map lower_ascii t) (IsAscii-map t h) ∙ map-lower_ascii_idem t;
})
