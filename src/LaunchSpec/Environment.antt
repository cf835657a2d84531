-- ===== src/LaunchSpec/Environment.antt =====
-- proot_launch_spec.py: the loop over the environment in `ProotLaunchSpec.validate`.
use etroute.Prelude.{
  ◌≡◌, refl, Bool, false, ◌||◌, List, [], ◌∷◌, ◌++◌, append-nil, append_assoc, All, ok, ◌>>=◌,
  raise_if, Returns, Returns-raise_if, Returns-ok, or-eq-false, arith, ◌∙◌, Bool-cases, inl, inr,
}
use etroute.Python.Text.{Text, strip, text_eq, text_eq_refl, text_eq→eq}
use etroute.Python.Text.Strip.{strip_idem}
use etroute.LaunchSpec.{set_key, is_bad_key, normalize_env}

abbrev Env : Type 0
Env = List (Text × Text)

-- `key in env`
abbrev has_key : Text → Env → Bool
has_key key [] = false
has_key key ((k, v) ∷ env) = text_eq k key || has_key key env

-- The keys are stripped, not empty, without `=` and NUL, and no two are equal.
abbrev IsKey : Text × Text → Type 0
IsKey (k, v) = (strip k ≡ k) × (is_bad_key k ≡ false)

abbrev AreDistinct : Env → Type 0
AreDistinct [] = Unit
AreDistinct ((k, v) ∷ env) = (has_key k env ≡ false) × AreDistinct env

abbrev pub IsEnv : Env → Type 0
IsEnv env = All IsKey env × AreDistinct env

set_key-IsKey :
    (k v : Text) (env : Env) → IsKey (k, v) → All IsKey env → All IsKey (set_key k v env)
unfolding set_key
set_key-IsKey k v [] h g = (h, tt)
set_key-IsKey k v ((j, w) ∷ env) h g = elim (Bool-cases (text_eq j k)) [
  | inl e ↦ rw (e, set_key) g
  | inr e ↦ rw (e, set_key) (g.0, set_key-IsKey k v env h g.1)
]

has_key-set_key :
    (j k v : Text) (env : Env)
    → text_eq k j ≡ false
    → has_key j env ≡ false
    → has_key j (set_key k v env) ≡ false
unfolding set_key
has_key-set_key j k v [] h g = rw h
has_key-set_key j k v ((i, w) ∷ env) h g = ground (arith, has_key-set_key j k v env h)

text_eq_comm : (s t : Text) → text_eq s t ≡ false → text_eq t s ≡ false
text_eq_comm s t h = elim (Bool-cases (text_eq t s)) [
  | inl e ↦ cc (text_eq→eq t s e, text_eq_refl s)
  | inr e ↦ e
]

set_key-AreDistinct : (k v : Text) (env : Env) → AreDistinct env → AreDistinct (set_key k v env)
unfolding set_key
set_key-AreDistinct k v [] d = (refl, tt)
set_key-AreDistinct k v ((j, w) ∷ env) d = elim (Bool-cases (text_eq j k)) [
  | inl e ↦ rw (e, set_key) d
  | inr e ↦
      rw (e, set_key)
        (has_key-set_key j k v env (text_eq_comm j k e) d.0, set_key-AreDistinct k v env d.1)
]

pub normalize_env-IsEnv : (env acc : Env) → IsEnv acc → Returns IsEnv (normalize_env env acc)
unfolding normalize_env
normalize_env-IsEnv [] acc h = Returns-ok IsEnv h
normalize_env-IsEnv ((k, v) ∷ env) acc h = Returns-raise_if IsEnv _ _ λ good.
    normalize_env-IsEnv env (set_key (strip k) v acc) (
      set_key-IsKey (strip k) v acc (strip_idem k, good) h.0,
      set_key-AreDistinct (strip k) v acc h.1,
    )

-- A new key goes to the end.
set_key-new :
    (k v : Text) (env : Env) → has_key k env ≡ false → set_key k v env ≡ env ++ ((k, v) ∷ [])
unfolding set_key
set_key-new k v [] h = refl
set_key-new k v ((j, w) ∷ env) h = ground (arith, set_key-new k v env)

-- The keys of `env` are none of `acc`.
abbrev AreApart : Env → Env → Type 0
AreApart acc [] = Unit
AreApart acc ((k, v) ∷ env) = (has_key k acc ≡ false) × AreApart acc env

has_key-append :
    (j k v : Text) (acc : Env)
    → has_key j acc ≡ false
    → text_eq k j ≡ false
    → has_key j (acc ++ ((k, v) ∷ [])) ≡ false
has_key-append j k v [] h g = rw g
has_key-append j k v ((i, w) ∷ acc) h g = ground (arith, has_key-append j k v acc)

AreApart-append :
    (k v : Text) (acc env : Env)
    → AreApart acc env
    → has_key k env ≡ false
    → AreApart (acc ++ ((k, v) ∷ [])) env
AreApart-append k v acc [] h g = tt
AreApart-append k v acc ((j, w) ∷ env) h g = (
  has_key-append j k v acc h.0 (text_eq_comm j k (or-eq-false _ _ g).0),
  AreApart-append k v acc env h.1 (or-eq-false _ _ g).1,
)

pub normalize_env-eq :
    (env acc : Env) → IsEnv env → AreApart acc env → normalize_env env acc ≡ ok (acc ++ env)
unfolding normalize_env ◌>>=◌ raise_if
normalize_env-eq [] acc h d = rw append-nil
normalize_env-eq ((k, v) ∷ env) acc h d =
    rw (h.0.0.0, h.0.0.1, set_key-new k v acc d.0)
      (normalize_env-eq env (acc ++ ((k, v) ∷ [])) (h.0.1, h.1.1)
          (AreApart-append k v acc env d.1 h.1.0)
        ∙ rw append_assoc)

pub AreApart-nil : (env : Env) → AreApart [] env
AreApart-nil [] = tt
AreApart-nil ((k, v) ∷ env) = (refl, AreApart-nil env)
