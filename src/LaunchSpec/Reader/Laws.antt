-- ===== src/LaunchSpec/Reader/Laws.antt =====
-- proot_launch_spec.py: what `from_dict` reads of the dict that `to_dict` writes.
use etroute.Prelude.{
  ◌≡◌, refl, Bool, true, false, Option, none, some, List, [], ◌∷◌, Result, ok, err, ◌>>=◌, ◌>>◌,
  raise_if, map_err, >>=-eq-ok, ap, sym, ◌∙◌,
}
use etroute.Python.Text.{Text}
use etroute.Python.Value.{
  arr, obj, arr, obj, Fields, of_texts, of_optional, bool, str, is_one, contains, int, pos, sorted,
  get, keys, without, tuple_of,
}
use etroute.Python.Runtime.{Runtime, to_text}
use etroute.Python.FileSystem.{FileSystem}
use etroute.Python.FileSystem.{IsLawful}
use etroute.LaunchSpec.{
  LaunchBind, ProotLaunchSpec, validate_bind, validate_binds, normalize_env, normalize_release,
  validate,
}
use etroute.LaunchSpec.Valid.{released, validate-validate}
use etroute.LaunchSpec.Writer.{bind_dict, bind_dicts, env_dict, spec_dict, to_dict}
use etroute.LaunchSpec.Reader.{
  as_read, is_truthy, BindArgs, bind_args, all_bind_args, read_bind, read_binds, tuple_or_empty,
  directory_of, texts_of, env_of, release_of, validate_args, from_dict, SpecArgs,
}

module _ {E F A B : Type 0} (f : E → F) where
  bind-map_err :
      (m : Result E A) (n : Result F A) (k : A → Result F B) (l : A → Result E B)
      → n ≡ map_err f m
      → ((a : A) → k a ≡ map_err f (l a))
      → (n >>= k) ≡ map_err f (m >>= l)
  unfolding ◌>>=◌
  bind-map_err (ok a) n k l e h = rw e (h a)
  bind-map_err (err x) n k l e h = rw e refl

module _ {E F B : Type 0} (f : E → F) where
  raise_if-map_err :
      (test : Bool) (e : E) (m : Result F B) (n : Result E B)
      → m ≡ map_err f n
      → (raise_if test (f e) >> m) ≡ map_err f (raise_if test e >> n)
  unfolding ◌>>=◌ raise_if
  raise_if-map_err true e m n h = refl
  raise_if-map_err false e m n h = h

args_of : LaunchBind → BindArgs
args_of b = record {
  host = str b.host;
  guest = str b.guest;
  no_dereference = bool b.no_dereference;
}

all_args : List LaunchBind → List BindArgs
unfolding args_of
all_args [] = []
all_args (b ∷ bs) = args_of b ∷ all_args bs

all_bind_args-bind_dicts :
    (binds : List LaunchBind) → all_bind_args (bind_dicts binds) ≡ ok (all_args binds)
unfolding all_bind_args bind_dicts bind_dict bind_args get keys without contains all_args args_of
    ◌>>=◌ raise_if
all_bind_args-bind_dicts [] = refl
all_bind_args-bind_dicts (b ∷ bs) = rw (all_bind_args-bind_dicts bs) refl

read_bind-args_of :
    (fs : FileSystem) (b : LaunchBind)
    → read_bind fs (args_of b) ≡ map_err as_read (validate_bind fs b)
unfolding read_bind validate_bind args_of is_truthy ◌>>=◌
read_bind-args_of fs b = raise_if-map_err as_read _ _ _ _ (raise_if-map_err as_read _ _ _ _ refl)

read_binds-all_args :
    (fs : FileSystem) (seen : List Text) (binds : List LaunchBind)
    → read_binds fs seen (all_args binds) ≡ map_err as_read (validate_binds fs seen binds)
unfolding read_binds validate_binds all_args
read_binds-all_args fs seen [] = refl
read_binds-all_args fs seen (b ∷ bs) =
    bind-map_err as_read _ _ _ _ (read_bind-args_of fs b) λ normalized.
      raise_if-map_err as_read _ _ _ _ (
        bind-map_err as_read _ _ _ _ (read_binds-all_args fs (normalized.guest ∷ seen) bs)
          λ rest. refl)

module _ (fs : FileSystem) (r : Runtime) where
  texts_of-of_texts : (ts : List Text) → texts_of fs r (of_texts ts) ≡ ts
  unfolding texts_of to_text
  texts_of-of_texts [] = refl
  texts_of-of_texts (t ∷ ts) = ap (λ us. t ∷ us) (texts_of-of_texts ts)

  env_of-env_dict : (env : List (Text × Text)) → env_of fs r (env_dict env) ≡ env
  unfolding env_of env_dict to_text
  env_of-env_dict [] = refl
  env_of-env_dict ((k, v) ∷ env) = ap (λ e. (k, v) ∷ e) (env_of-env_dict env)

  release_of-of_optional : (o : Option Text) → release_of fs r (of_optional o) ≡ normalize_release o
  unfolding release_of normalize_release is_truthy to_text
  release_of-of_optional none = refl
  release_of-of_optional (some []) = refl
  release_of-of_optional (some (c ∷ s)) = refl

  directory_of-of_optional : (o : Option Text) → directory_of (of_optional o) ≡ ok o
  directory_of-of_optional none = refl
  directory_of-of_optional (some t) = refl

  tuple_or_empty-of_texts :
      (ts : List Text) → tuple_or_empty (arr (of_texts ts)) ≡ some (of_texts ts)
  unfolding tuple_or_empty tuple_of is_truthy
  tuple_or_empty-of_texts [] = refl
  tuple_or_empty-of_texts (t ∷ ts) = refl

  args_of_spec : ProotLaunchSpec → SpecArgs
  args_of_spec s = record {
    rootfs = str s.rootfs;
    command = of_texts s.command;
    binds = all_args s.binds;
    root_id = bool s.root_id;
    kill_on_exit = bool s.kill_on_exit;
    kernel_release = of_optional s.kernel_release;
    guest_working_directory = of_optional s.guest_working_directory;
    environment = obj (env_dict s.environment);
    schema_version = int (pos s.schema_version);
  }

  validate_args-args_of_spec :
      (s : ProotLaunchSpec) → validate_args fs r (args_of_spec s) ≡ map_err as_read (validate fs s)
  unfolding validate_args validate args_of_spec is_one is_truthy ◌>>=◌
  validate_args-args_of_spec s =
      rw
        (
          texts_of-of_texts s.command,
          release_of-of_optional s.kernel_release,
          env_of-env_dict s.environment,
          directory_of-of_optional s.guest_working_directory,
        )
        (raise_if-map_err as_read _ _ _ _ (
          raise_if-map_err as_read _ _ _ _ (
            raise_if-map_err as_read _ _ _ _ (
              raise_if-map_err as_read _ _ _ _ (
                raise_if-map_err as_read _ _ _ _ (
                  bind-map_err as_read _ _ _ _ (read_binds-all_args fs [] s.binds) λ binds.
                    bind-map_err as_read (normalize_env s.environment []) _ _ _ refl
                      λ env. refl))))))

  from_dict-spec_dict :
      (s : ProotLaunchSpec) → from_dict fs r (spec_dict s) ≡ validate_args fs r (args_of_spec s)
  unfolding from_dict spec_dict get keys without sorted contains args_of_spec tuple_of ◌>>=◌
      raise_if
  from_dict-spec_dict s =
      rw (tuple_or_empty-of_texts s.command, all_bind_args-bind_dicts s.binds) refl

-- On a lawful file system, what `from_dict` reads of the dict that `to_dict` writes of a specification
-- is the validated specification, but for a kernel release that was blank: that becomes absent.
pub launch_round_trip :
    (fs : FileSystem)
    → IsLawful fs
    → (r : Runtime) (s : ProotLaunchSpec) (d : Fields) → to_dict fs s ≡ ok d
    → (v : ProotLaunchSpec) × (validate fs s ≡ ok v) × (from_dict fs r d ≡ ok (released v))
unfolding to_dict
launch_round_trip fs law r s d made =
    let (v, valid, dict) = >>=-eq-ok (validate fs s) (λ v. ok (spec_dict v)) made in
    let d_eq : spec_dict v ≡ d = cc dict in
    (
      v,
      valid,
      ap (from_dict fs r) (sym d_eq)
          ∙ from_dict-spec_dict fs r v
          ∙ validate_args-args_of_spec fs r v
          ∙ ap (map_err as_read) (validate-validate fs law s v valid),
    )
