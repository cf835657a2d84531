-- ===== src/LaunchSpec/Binds.antt =====
-- proot_launch_spec.py: `LaunchBind.validate` and the loop over the binds.
use etroute.Prelude.{
  ◌≡◌, refl, ◌≢◌, true, false, List, [], ◌∷◌, All, ok, ◌>>=◌, raise_if, Returns, Returns-bind,
  Returns-raise_if, Returns-ok, ◌∙◌, not-false, arith, ap,
}
use etroute.Python.Text.{Text, codes, text_eq_refl}
use etroute.Python.Value.{contains}
use etroute.Python.PurePath.{parse, show}
use etroute.Python.PurePath.Laws.{parse-show-parse}
use etroute.Python.FileSystem.{FileSystem, IsLawful}
use etroute.LaunchSpec.{
  LaunchBind, is_safe_guest, validate_bind, validate_binds, bind_arguments, serialize, bind_text,
}

-- A bind that validation leaves as it is.
pub record IsNormal (fs : FileSystem) (b : LaunchBind) : Type 0 where
  pub host : fs.resolve b.host ≡ b.host
  pub source : fs.exists b.host ≡ true
  pub guest : show (parse b.guest) ≡ b.guest
  pub safe : is_safe_guest b.guest ≡ true

is_safe_guest-show : (t : Text) → is_safe_guest (show (parse t)) ≡ is_safe_guest t
unfolding is_safe_guest
is_safe_guest-show t = rw parse-show-parse

validate_bind-IsNormal :
    (fs : FileSystem) → IsLawful fs → (b : LaunchBind) → Returns (IsNormal fs) (validate_bind fs b)
unfolding validate_bind
validate_bind-IsNormal fs law b = Returns-raise_if (IsNormal fs) _ _ λ source.
    Returns-raise_if (IsNormal fs) _ _ λ safe. Returns-ok (IsNormal fs) (record {
      host = law.resolve_idem b.host;
      source = not-false _ source;
      guest = ap show (parse-show-parse b.guest);
      safe = is_safe_guest-show b.guest ∙ not-false _ safe;
    })

validate_bind-eq : (fs : FileSystem) (b : LaunchBind) → IsNormal fs b → validate_bind fs b ≡ ok b
unfolding validate_bind ◌>>=◌ raise_if
validate_bind-eq fs b n = rw (n.host, n.source, n.safe, n.guest)

-- The guests of the binds are none of `seen` and differ from one another.
abbrev AreNew : List Text → List LaunchBind → Type 0
AreNew seen [] = Unit
AreNew seen (b ∷ bs) = (contains seen b.guest ≡ false) × AreNew (b.guest ∷ seen) bs

abbrev pub AreNormal : FileSystem → List Text → List LaunchBind → Type 0
AreNormal fs seen bs = All (IsNormal fs) bs × AreNew seen bs

pub validate_binds-AreNormal :
    (fs : FileSystem)
    → IsLawful fs
    → (seen : List Text) (bs : List LaunchBind)
    → Returns (AreNormal fs seen) (validate_binds fs seen bs)
unfolding validate_binds
validate_binds-AreNormal fs law seen [] = Returns-ok _ (tt, tt)
validate_binds-AreNormal fs law seen (b ∷ bs) =
    Returns-bind _ _ (validate_bind-IsNormal fs law b) λ normalized n.
      Returns-raise_if (AreNormal fs seen) _ _ λ fresh.
        Returns-bind _ _ (validate_binds-AreNormal fs law (normalized.guest ∷ seen) bs)
          λ rest r. Returns-ok (AreNormal fs seen) ((n, r.0), (fresh, r.1))

pub validate_binds-eq :
    (fs : FileSystem) (seen : List Text) (bs : List LaunchBind)
    → AreNormal fs seen bs
    → validate_binds fs seen bs ≡ ok bs
unfolding validate_binds ◌>>=◌ raise_if
validate_binds-eq fs seen [] h = refl
validate_binds-eq fs seen (b ∷ bs) h =
    rw (validate_bind-eq fs b h.0.0, h.1.0, validate_binds-eq fs (b.guest ∷ seen) bs (h.0.1, h.1.1))

abbrev pub bind_texts : List LaunchBind → List Text
bind_texts [] = []
bind_texts (b ∷ bs) = codes "--bind" ∷ bind_text b ∷ bind_texts bs

-- `serialize` validates each bind once more and changes nothing.
pub bind_arguments-eq :
    (fs : FileSystem) (bs : List LaunchBind)
    → All (IsNormal fs) bs
    → bind_arguments fs bs ≡ ok (bind_texts bs)
unfolding bind_arguments serialize ◌>>=◌
bind_arguments-eq fs [] h = refl
bind_arguments-eq fs (b ∷ bs) h = rw (validate_bind-eq fs b h.0, bind_arguments-eq fs bs h.1)

-- No two binds have one guest.
abbrev pub Distinct : List LaunchBind → Type 0
Distinct [] = Unit
Distinct (b ∷ bs) = All (λ c. b.guest ≢ c.guest) bs × Distinct bs

not-contained :
    (seen : List Text) (g h : Text) → contains seen g ≡ true → contains seen h ≡ false → g ≢ h
not-contained seen g h p q e = cc

contains_there :
    (seen : List Text) (g h : Text) → contains seen g ≡ true → contains (h ∷ seen) g ≡ true
unfolding contains
contains_there seen g h p = ground arith

contains_here : (seen : List Text) (g : Text) → contains (g ∷ seen) g ≡ true
unfolding contains
contains_here seen g = rw text_eq_refl

AreNew-ne :
    (seen : List Text) (g : Text) (bs : List LaunchBind)
    → contains seen g ≡ true
    → AreNew seen bs
    → All (λ c. g ≢ c.guest) bs
AreNew-ne seen g [] p n = tt
AreNew-ne seen g (b ∷ bs) p n = (
  not-contained seen g b.guest p n.0,
  AreNew-ne (b.guest ∷ seen) g bs (contains_there seen g b.guest p) n.1,
)

pub AreNew-Distinct : (seen : List Text) (bs : List LaunchBind) → AreNew seen bs → Distinct bs
AreNew-Distinct seen [] n = tt
AreNew-Distinct seen (b ∷ bs) n = (
  AreNew-ne (b.guest ∷ seen) b.guest bs (contains_here seen b.guest) n.1,
  AreNew-Distinct (b.guest ∷ seen) bs n.1,
)
