-- ===== src/Prelude/Results.antt =====
-- Python code that may raise returns its value or the exception. The type of exceptions varies
-- with the module, so it is a parameter.
use mathlib.Core.Path.{◌≡◌, refl, subst}
use mathlib.Core.Bool.{Bool, true, false}
use mathlib.Core.List.{List, [], ◌∷◌}

pub data Result {ℓ κ} (E : Type ℓ) (A : Type κ) : Type (ℓ ⊔ κ) where
  ok : A → Result E A
  err : E → Result E A

infixl 5 ◌>>=◌ ◌>>◌
-- Shut in proofs: `Returns` has a rule for each part of a `do` block.
unfoldable pub ◌>>=◌ {ℓ κ μ} :
    {E : Type ℓ} {A : Type κ} {B : Type μ} → Result E A → (A → Result E B) → Result E B
ok a >>= f = f a
err e >>= f = err e

abbrev pub ◌>>◌ {ℓ μ} : {E : Type ℓ} {B : Type μ} → Result E (Unit {0}) → Result E B → Result E B
m >> k = m >>= λ _. k

-- `if test: raise e`
unfoldable pub raise_if {ℓ} : {E : Type ℓ} → Bool → E → Result E (Unit {0})
raise_if true e = err e
raise_if false e = ok tt

-- `except E as exc: raise F(...) from exc`
abbrev pub map_err {ℓ κ μ} :
    {E : Type ℓ} {F : Type κ} {A : Type μ} → (E → F) → Result E A → Result F A
map_err f (ok a) = ok a
map_err f (err e) = err (f e)

-- A list comprehension whose element may raise.
abbrev pub map_all {ℓ κ μ} :
    {E : Type ℓ} {A : Type κ} {B : Type μ} → (A → Result E B) → List A → Result E (List B)
map_all f [] = ok []
map_all f (x ∷ xs) = do y ← f x; ys ← map_all f xs; ok (y ∷ ys)

pub >>=-eq-ok {ℓ κ μ} :
    {E : Type ℓ} {A : Type κ} {B : Type μ} (m : Result E A) (f : A → Result E B) {b : B}
    → (m >>= f) ≡ ok b
    → (a : A) × (m ≡ ok a) × (f a ≡ ok b)
unfolding ◌>>=◌
>>=-eq-ok (ok a) f h = (a, refl, h)
>>=-eq-ok (err e) f h = cc

pub raise_if-eq-ok {ℓ} :
    {E : Type ℓ} (t : Bool) (e : E) {u : Unit {0}} → raise_if t e ≡ ok u → t ≡ false
unfolding raise_if
raise_if-eq-ok true e h = cc
raise_if-eq-ok false e h = refl

-- If the call returns, its value satisfies `P`.
pub record Returns {ℓ κ μ} {E : Type ℓ} {A : Type κ} (P : A → Type μ) (m : Result E A)
    : Type (ℓ ⊔ κ ⊔ μ) where
  pub at : (a : A) → m ≡ ok a → P a

module _ {ℓ κ μ ν ξ} {E : Type ℓ} {A : Type κ} {B : Type μ} where
  pub Returns-bind :
      (P : A → Type ν) (Q : B → Type ξ) {m : Result E A} {f : A → Result E B}
      → Returns P m
      → ((a : A) → P a → Returns Q (f a))
      → Returns Q (m >>= f)
  Returns-bind P Q {m} {f} h k = record {
    at = λ b e. let (a, ma, fb) = >>=-eq-ok m f e in (k a (h.at a ma)).at b fb;
  }

module _ {ℓ κ μ} {E : Type ℓ} {A : Type κ} where
  pub Returns-raise_if :
      (P : A → Type μ) (t : Bool) (e : E) {m : Result E A}
      → (t ≡ false → Returns P m)
      → Returns P (raise_if t e >> m)
  Returns-raise_if P t e {m} h = record {
    at = λ b p.
        let (u, q, r) = >>=-eq-ok (raise_if t e) (λ _. m) p in (h (raise_if-eq-ok t e q)).at b r;
  }

  pub Returns-ok : (P : A → Type μ) {a : A} → P a → Returns {ℓ, κ, μ} {E = E} P (ok a)
  Returns-ok P {a} h = record { at = λ b e. subst P (ok_inj e) h }
    where
      ok_inj : {a b : A} → ◌≡◌ {A = Result E A} (ok a) (ok b) → a ≡ b
      ok_inj e = cc

  pub Returns-err : (P : A → Type μ) {e : E} → Returns P (err e)
  Returns-err P = record { at = λ b h. cc }

  pub Returns-mono :
      (P Q : A → Type μ) {m : Result E A} → ((a : A) → P a → Q a) → Returns P m → Returns Q m
  Returns-mono P Q f h = record { at = λ a e. f a (h.at a e) }

module _ {ℓ κ} {E : Type ℓ} {A : Type κ} where
  -- What `m` returns, as an equation.
  pub Returns-self : {m : Result E A} → Returns (λ a. m ≡ ok a) m
  Returns-self = record { at = λ a e. e }

  pub Returns-any : {m : Result E A} → Returns (λ a. Unit {0}) m
  Returns-any = record { at = λ a e. tt }

  -- A run of the parts of a `do` block, one equation for each.
  pub raise_if-pass : (t : Bool) (e : E) (m : Result E A) → t ≡ false → (raise_if t e >> m) ≡ m
  unfolding ◌>>=◌ raise_if
  raise_if-pass t e m h = rw h

-- If the call raises, the exception satisfies `P`.
pub record Raises {ℓ κ μ} {E : Type ℓ} {A : Type κ} (P : E → Type μ) (m : Result E A)
    : Type (ℓ ⊔ κ ⊔ μ) where
  pub at : (e : E) → m ≡ err e → P e

module _ {ℓ κ μ} {E : Type ℓ} (P : E → Type μ) where
  pub Raises-ok : {A : Type κ} {a : A} → Raises P (ok a)
  Raises-ok = record { at = λ e h. cc }

  pub Raises-err : {A : Type κ} {e : E} → P e → Raises {ℓ, κ, μ} {A = A} P (err e)
  Raises-err {A} p = record { at = λ f h. subst P (err_inj h) p }
    where
      err_inj : {e f : E} → ◌≡◌ {A = Result E A} (err e) (err f) → e ≡ f
      err_inj h = cc

module _ {ℓ κ μ ν} {E : Type ℓ} {A : Type κ} {B : Type μ} (P : E → Type ν) where
  bind-Raises :
      (m : Result E A) (f : A → Result E B)
      → Raises P m
      → ((a : A) → Raises P (f a))
      → Raises P (m >>= f)
  unfolding ◌>>=◌
  bind-Raises (ok a) f h k = k a
  bind-Raises (err e) f h k = record { at = λ e' p. h.at e' (same p) }
    where
      same : {e f : E} → ◌≡◌ {A = Result E B} (err e) (err f) → ◌≡◌ {A = Result E A} (err e) (err f)
      same p = cc

  pub Raises-bind :
      {m : Result E A} {f : A → Result E B}
      → Raises P m
      → ((a : A) → Raises P (f a))
      → Raises P (m >>= f)
  Raises-bind {m} {f} h k = bind-Raises m f h k

module _ {ℓ κ μ} {E : Type ℓ} {A : Type κ} (P : E → Type μ) where
  pub Raises-raise_if :
      (t : Bool) (e : E) {m : Result E A} → P e → Raises P m → Raises P (raise_if t e >> m)
  unfolding ◌>>=◌ raise_if
  Raises-raise_if true e p h = Raises-err P p
  Raises-raise_if false e p h = h
