-- ===== src/RuntimeContract/Request/Valid.antt =====
-- What `__post_init__` makes sure of, and that a valid request passes it again unchanged.
use etroute.Prelude.{
  ℕ, ◌≡◌, refl, true, List, [], ◌∷◌, ok, ◌>>=◌, raise_if, Returns, All, Returns-bind,
  Returns-raise_if, Returns-any, not-false, Returns-mono, subst, Returns-ok, sym,
}
use etroute.Python.Text.{Text, codes}
use etroute.Python.Text.Clean.{IsClean}
use etroute.Python.Text.Ascii.{IsAscii, IsAscii-strip, IsLowered, lower-IsLowered}
use etroute.Python.Value.{str, obj, int, pos, Items, nil, cons, is_one, of_optional, of_texts}
use etroute.Python.Runtime.{Runtime, to_text}
use etroute.RuntimeContract.Enums.{
  command_value, backend_value, find_command, find_backend, find_command-command_value,
  find_backend-backend_value,
}
use etroute.RuntimeContract.Checks.{
  complaints, max_diagnostics_json_bytes, max_text, require_text, require_generation, member_of-eq,
}
use etroute.Python.Validators.Laws.{
  clean_text-IsClean, clean_text-Returns, clean_text-eq, optional_clean_text-IsClean,
  optional_clean_text-eq, json_object-Fits, json_object-eq, iso_text-Returns, iso_text-eq, Fits,
  OptionalIsClean,
}
use etroute.RuntimeContract.Request.{RequestArgs, RuntimeRequest, normalize_requirements, post_init}

-- Every item is an ASCII text.
abbrev pub AsciiItems : Items → Type 0
AsciiItems nil = Unit
AsciiItems (cons (str t) xs) = IsAscii t × AsciiItems xs
AsciiItems (cons _ xs) = ⊥

pub record IsValid (rt : Runtime) (r : RuntimeRequest) : Type 0 where
  pub schema : is_one r.schema_version ≡ true
  pub request_id : IsClean max_text r.request_id
  pub session_id : IsClean max_text r.session_id
  pub options : Fits max_diagnostics_json_bytes r.options
  pub rootfs_profile : OptionalIsClean 128 r.rootfs_profile
  pub created_at : rt.is_iso r.created_at ≡ true

pub post_init-IsValid : (rt : Runtime) (a : RequestArgs) → Returns (IsValid rt) (post_init rt a)
unfolding post_init
post_init-IsValid rt a = Returns-raise_if (IsValid rt) _ _ λ schema.
    Returns-bind _ (IsValid rt) Returns-any λ command _.
      Returns-bind _ (IsValid rt) Returns-any λ generation _.
        Returns-bind _ (IsValid rt) (clean_text-IsClean complaints rt _ _ _) λ request_id hr.
          Returns-bind _ (IsValid rt) (clean_text-IsClean complaints rt _ _ _) λ session_id hs.
            Returns-bind _ (IsValid rt) Returns-any λ backend _.
              Returns-bind _ (IsValid rt)
                (json_object-Fits complaints max_diagnostics_json_bytes _ _)
                λ options ho.
                  Returns-bind _ (IsValid rt) (optional_clean_text-IsClean complaints rt _ _ _)
                    λ rootfs hp. Returns-bind _ (IsValid rt) Returns-any λ requirements _.
                      Returns-bind _ (IsValid rt) (iso_text-Returns complaints rt _ _) λ created hc.
                        Returns-ok (IsValid rt) (record {
                          schema = not-false _ schema;
                          request_id = hr;
                          session_id = hs;
                          options = ho;
                          rootfs_profile = hp;
                          created_at = hc;
                        })

-- The arguments that would make the request again.
abbrev pub args_of : RuntimeRequest → RequestArgs
args_of r = record {
  command = str (command_value r.command);
  generation = int (pos r.generation);
  request_id = str r.request_id;
  session_id = str r.session_id;
  preferred_backend = str (backend_value r.preferred_backend);
  rootfs_profile = of_optional r.rootfs_profile;
  requirements = of_texts r.requirements;
  options = obj r.options;
  created_at = str r.created_at;
  schema_version = r.schema_version;
}

abbrev pub AreLowered : Runtime → List Text → Type 0
AreLowered rt = All (IsLowered rt.lower_wide 128)

require_text-IsAscii :
    (rt : Runtime) (name : Text) (maximum : ℕ) (t : Text)
    → IsAscii t
    → Returns (λ s. IsAscii s × IsClean maximum s) (require_text rt name maximum (str t))
unfolding to_text
require_text-IsAscii rt name maximum t h =
    Returns-mono _ (λ s. IsAscii s × IsClean maximum s)
      (λ s k. (subst IsAscii (sym k.0) (IsAscii-strip t h), k.1))
      (clean_text-Returns complaints rt name maximum (str t))

pub normalize_requirements-AreLowered :
    (rt : Runtime) (xs : Items)
    → AsciiItems xs
    → Returns (AreLowered rt) (normalize_requirements rt xs)
unfolding normalize_requirements
normalize_requirements-AreLowered rt nil h = Returns-ok _ tt
normalize_requirements-AreLowered rt (cons (str t) xs) h =
    Returns-bind _ _ (require_text-IsAscii rt _ 128 t h.0) λ text c.
      Returns-bind _ _ (normalize_requirements-AreLowered rt xs h.1)
        λ rest k. Returns-ok (AreLowered rt) (lower-IsLowered rt.lower_wide 128 text c.0 c.1, k)
normalize_requirements-AreLowered rt (cons _ xs) h = elim h [ ]

normalize_requirements-eq :
    (rt : Runtime) (ts : List Text)
    → AreLowered rt ts
    → normalize_requirements rt (of_texts ts) ≡ ok ts
unfolding normalize_requirements ◌>>=◌
normalize_requirements-eq rt [] h = refl
normalize_requirements-eq rt (t ∷ ts) h = rw (
  clean_text-eq complaints rt (codes "requirement") 128 t h.0.clean,
  normalize_requirements-eq rt ts h.1,
  h.0.lowered,
)

-- A valid request with lowered requirements is made again by its own fields.
pub post_init-args_of :
    (rt : Runtime) (r : RuntimeRequest)
    → IsValid rt r
    → AreLowered rt r.requirements
    → post_init rt (args_of r) ≡ ok r
unfolding post_init ◌>>=◌ raise_if require_generation
post_init-args_of rt r v q = rw (
  v.schema,
  member_of-eq find_command (command_value r.command) r.command
      (find_command-command_value r.command),
  clean_text-eq complaints rt (codes "request_id") max_text r.request_id v.request_id,
  clean_text-eq complaints rt (codes "session_id") max_text r.session_id v.session_id,
  member_of-eq find_backend (backend_value r.preferred_backend) r.preferred_backend
      (find_backend-backend_value r.preferred_backend),
  json_object-eq complaints max_diagnostics_json_bytes (codes "options") r.options v.options,
  optional_clean_text-eq complaints rt (codes "rootfs_profile") 128 r.rootfs_profile
      v.rootfs_profile,
  normalize_requirements-eq rt r.requirements q,
  iso_text-eq complaints rt (codes "created_at") r.created_at v.created_at,
)
