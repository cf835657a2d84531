-- ===== src/Python/Validators/Laws.antt =====
-- What the validators accept, and that they leave it as it is.
use etroute.Prelude.{
  ℕ, ◌≡◌, refl, true, false, Option, none, some, length, ltb, ◌==◌, ok, ◌>>=◌, Bool-cases, inl, inr,
  subst, sym, Returns, Returns-bind, Returns-ok, Returns-err, Returns-mono,
}
use etroute.Python.Text.{Text, strip}
use etroute.Python.Text.Clean.{IsClean, strip-IsClean}
use etroute.Python.Value.{Value, null, str, obj, Fields, of_optional}
use etroute.Python.Json.{json_size}
use etroute.Python.Runtime.{Runtime, to_text}
use etroute.Python.Validators.{
  Complaints, clean_text, optional_clean_text, within, json_object, iso_text,
}

abbrev pub OptionalIsClean : ℕ → Option Text → Type 0
OptionalIsClean maximum none = Unit
OptionalIsClean maximum (some t) = IsClean maximum t

-- A dict whose JSON text encodes within the limit.
pub record Fits (limit : ℕ) (d : Fields) : Type 0 where
  pub size : ℕ
  pub encodes : json_size (obj d) ≡ some size
  pub fits : ltb limit size ≡ false

module _ {R : Type 0} (says : Complaints R) where
  pub clean_text-Returns :
      (rt : Runtime) (name : Text) (maximum : ℕ) (value : Value)
      → Returns
          (λ s. (s ≡ strip (to_text rt value)) × IsClean maximum s)
          (clean_text says rt name maximum value)
  unfolding clean_text
  clean_text-Returns rt name maximum value =
      let s = strip (to_text rt value) in
      elim (Bool-cases (length s == 0)) [
        | inl e ↦ rw e (Returns-err _)
        | inr e ↦ rw e (elim (Bool-cases (ltb maximum (length s))) [
          | inl l ↦ rw l (Returns-err _)
          | inr l ↦ rw l (Returns-ok _ (refl, strip-IsClean maximum (to_text rt value) e l))
        ])
      ]

  pub clean_text-IsClean :
      (rt : Runtime) (name : Text) (maximum : ℕ) (value : Value)
      → Returns (IsClean maximum) (clean_text says rt name maximum value)
  clean_text-IsClean rt name maximum value =
      Returns-mono _ (IsClean maximum) (λ s h. h.1) (clean_text-Returns rt name maximum value)

  pub clean_text-eq :
      (rt : Runtime) (name : Text) (maximum : ℕ) (t : Text)
      → IsClean maximum t
      → clean_text says rt name maximum (str t) ≡ ok t
  unfolding clean_text to_text
  clean_text-eq rt name maximum t c = rw (c.stripped, c.not_empty, c.bounded)

  pub optional_clean_text-eq :
      (rt : Runtime) (name : Text) (maximum : ℕ) (o : Option Text)
      → OptionalIsClean maximum o
      → optional_clean_text says rt name maximum (of_optional o) ≡ ok o
  unfolding optional_clean_text ◌>>=◌
  optional_clean_text-eq rt name maximum none h = refl
  optional_clean_text-eq rt name maximum (some t) h = rw (clean_text-eq rt name maximum t h)

  pub optional_clean_text-IsClean :
      (rt : Runtime) (name : Text) (maximum : ℕ) (value : Value)
      → Returns (OptionalIsClean maximum) (optional_clean_text says rt name maximum value)
  unfolding optional_clean_text
  optional_clean_text-IsClean rt name maximum null = Returns-ok _ tt
  optional_clean_text-IsClean rt name maximum value =
      Returns-bind (IsClean maximum) _ (clean_text-IsClean rt name maximum _) λ t h. Returns-ok _ h

  within-Fits :
      (limit : ℕ) (name : Text) (d : Fields) (size : Option ℕ)
      → Returns
          (λ e. (e ≡ d) × (n : ℕ) × (size ≡ some n) × (ltb limit n ≡ false))
          (within says limit name d size)
  unfolding within
  within-Fits limit name d none = Returns-err _
  within-Fits limit name d (some n) = elim (Bool-cases (ltb limit n)) [
    | inl e ↦ rw e (Returns-err _)
    | inr e ↦ rw e (Returns-ok _ (refl, n, refl, e))
  ]

  pub json_object-Fits :
      (limit : ℕ) (name : Text) (value : Value)
      → Returns (Fits limit) (json_object says limit name value)
  unfolding json_object
  json_object-Fits limit name (obj d) =
      Returns-mono _ (Fits limit)
        (λ e h. subst (Fits limit) (sym h.0) (record { size = h.1; encodes = h.2; fits = h.3 }))
        (within-Fits limit name d (json_size (obj d)))
  json_object-Fits limit name _ = Returns-err _

  pub json_object-eq :
      (limit : ℕ) (name : Text) (d : Fields)
      → Fits limit d
      → json_object says limit name (obj d) ≡ ok d
  unfolding json_object within
  json_object-eq limit name d f = rw (f.encodes, f.fits)

  pub iso_text-Returns :
      (rt : Runtime) (name : Text) (value : Value)
      → Returns (λ t. rt.is_iso t ≡ true) (iso_text says rt name value)
  unfolding iso_text
  iso_text-Returns rt name (str t) = elim (Bool-cases (rt.is_iso t)) [
    | inl e ↦ rw e (Returns-ok _ e)
    | inr e ↦ rw e (Returns-err _)
  ]
  iso_text-Returns rt name _ = Returns-err _

  pub iso_text-eq :
      (rt : Runtime) (name t : Text) → rt.is_iso t ≡ true → iso_text says rt name (str t) ≡ ok t
  unfolding iso_text
  iso_text-eq rt name t h = rw h
