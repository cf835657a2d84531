-- ===== src/LaunchSpec/Valid.antt =====
-- proot_launch_spec.py: the specifications that `ProotLaunchSpec.validate` returns.
use etroute.Prelude.{
  ℕ, ◌≡◌, refl, true, false, Option, some, [], ◌∷◌, ◌==◌, ok, ◌>>=◌, raise_if, All, Returns,
  Returns-bind, Returns-raise_if, Returns-ok, not-false, ap, ◌∙◌, ==_iff, arith, ◌≢◌, sym,
}
use etroute.Python.Text.{Text, strip}
use etroute.Python.FileSystem.{FileSystem, IsLawful}
use etroute.LaunchSpec.{
  Checked, ProotLaunchSpec, has_shell, is_blank_command, is_unsafe_directory, validate,
  normalize_release,
}
use etroute.LaunchSpec.Binds.{
  AreNormal, IsNormal, Distinct, AreNew-Distinct, validate_binds-AreNormal, validate_binds-eq,
}
use etroute.LaunchSpec.Environment.{IsEnv, AreApart-nil, normalize_env-IsEnv, normalize_env-eq}

pub record IsValid (fs : FileSystem) (s : ProotLaunchSpec) : Type 0 where
  pub schema : (s.schema_version == 1) ≡ true
  pub resolved : fs.resolve s.rootfs ≡ s.rootfs
  pub rootfs : fs.is_dir s.rootfs ≡ true
  pub shell : has_shell fs s.rootfs ≡ true
  pub command : is_blank_command s.command ≡ false
  pub directory : is_unsafe_directory s.guest_working_directory ≡ false
  pub binds : AreNormal fs [] s.binds
  pub environment : IsEnv s.environment

-- Where the resolved rootfs comes from, for the command line.
pub record IsResolved (fs : FileSystem) (s v : ProotLaunchSpec) : Type 0 where
  pub valid : IsValid fs v
  pub origin : v.rootfs ≡ fs.resolve s.rootfs
  pub command : v.command ≡ s.command
  pub directory : v.guest_working_directory ≡ s.guest_working_directory
  pub release : v.kernel_release ≡ normalize_release s.kernel_release

pub validate-IsResolved :
    (fs : FileSystem)
    → IsLawful fs
    → (s : ProotLaunchSpec) → Returns (IsResolved fs s) (validate fs s)
unfolding validate
validate-IsResolved fs law s =
    let P = IsResolved fs s in
    Returns-raise_if P _ _ λ schema. Returns-raise_if P _ _ λ rootfs.
      Returns-raise_if P _ _ λ shell. Returns-raise_if P _ _ λ command.
        Returns-raise_if P _ _ λ directory.
          Returns-bind _ P (validate_binds-AreNormal fs law [] s.binds) λ binds b.
            Returns-bind _ P (normalize_env-IsEnv s.environment [] (tt, tt)) λ environment e.
              Returns-ok P (record {
                valid = record {
                  schema = refl;
                  resolved = law.resolve_idem s.rootfs;
                  rootfs = not-false _ rootfs;
                  shell = not-false _ shell;
                  command = command;
                  directory = directory;
                  binds = b;
                  environment = e;
                };
                origin = refl;
                command = refl;
                directory = refl;
                release = refl;
              })

abbrev pub released : ProotLaunchSpec → ProotLaunchSpec
released s = record s { kernel_release = normalize_release s.kernel_release }

schema-eq : (n : ℕ) → (n == 1) ≡ true → n ≡ 1
schema-eq n h = (==_iff n 1).0 h

validate-eq :
    (fs : FileSystem) (v : ProotLaunchSpec) → IsValid fs v → validate fs v ≡ ok (released v)
unfolding validate ◌>>=◌ raise_if
validate-eq fs v valid =
    rw
      (
        valid.schema,
        valid.resolved,
        valid.rootfs,
        valid.shell,
        valid.command,
        valid.directory,
        validate_binds-eq fs [] v.binds valid.binds,
        normalize_env-eq v.environment [] valid.environment (AreApart-nil v.environment),
      )
      (ap (λ (n : ℕ). ok (record (released v) { schema_version = n }))
        (sym (schema-eq v.schema_version valid.schema)))

-- On a lawful file system, validating a specification that validation returned succeeds and changes
-- nothing but a kernel release that was blank: that becomes absent.
pub validate-validate :
    (fs : FileSystem)
    → IsLawful fs
    → (s v : ProotLaunchSpec) → validate fs s ≡ ok v
    → validate fs v ≡ ok (released v)
validate-validate fs law s v made =
    validate-eq fs v ((validate-IsResolved fs law s).at v made).valid

-- On a lawful file system, a specification that validation returned has an existing rootfs with a
-- shell, a command, binds onto pairwise distinct guests that are absolute and free of `..`, and an
-- environment of distinct, stripped keys without `=` and NUL.
pub validate-IsValid :
    (fs : FileSystem)
    → IsLawful fs
    → (s v : ProotLaunchSpec) → validate fs s ≡ ok v
    → (fs.is_dir v.rootfs ≡ true)
      × (has_shell fs v.rootfs ≡ true)
      × (is_blank_command v.command ≡ false)
      × All (IsNormal fs) v.binds
      × Distinct v.binds
      × IsEnv v.environment
validate-IsValid fs law s v made =
    let r = (validate-IsResolved fs law s).at v made in
    (
      r.valid.rootfs,
      r.valid.shell,
      r.valid.command,
      r.valid.binds.0,
      AreNew-Distinct [] v.binds r.valid.binds.1,
      r.valid.environment,
    )

blank-release :
    (o p : Option Text) (c : ℕ) (k : Text)
    → o ≡ some (c ∷ k)
    → strip (c ∷ k) ≡ []
    → p ≡ normalize_release o
    → p ≡ some []
unfolding normalize_release
blank-release o p c k given blank e = e ∙ rw (given, normalize_release, blank)

not-released :
    (v : ProotLaunchSpec)
    → v.kernel_release ≡ some []
    → ◌≢◌ {A = Checked ProotLaunchSpec} (ok (released v)) (ok v)
unfolding normalize_release
not-released v e h = ground (arith, h, e)

-- On a lawful file system, a kernel release of spaces alone, where validation returns, has become
-- the empty text, and a second validation does not return the same specification.
blank_release_unstable :
    (fs : FileSystem) (law : IsLawful fs) (s v : ProotLaunchSpec) (c : ℕ) (k : Text)
    → s.kernel_release ≡ some (c ∷ k)
    → strip (c ∷ k) ≡ []
    → validate fs s ≡ ok v
    → (v.kernel_release ≡ some []) × (validate fs v ≢ ok v)
blank_release_unstable fs law s v c k given blank made =
    let r = (validate-IsResolved fs law s).at v made in
    let e = blank-release s.kernel_release v.kernel_release c k given blank r.release in
    (e, λ again. not-released v e (sym (validate-validate fs law s v made) ∙ again))
