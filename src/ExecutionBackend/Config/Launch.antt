-- ===== src/ExecutionBackend/Config/Launch.antt =====
-- execution_backend.py: the command line of a PRoot execution, through the configuration, the
-- launch specification and its second validation.
use etroute.Prelude.{
  ◌≡◌, refl, ◌∙◌, ap, Bool, true, ◌∷◌, All, ok, err, ◌>>=◌, map_err, Result, Returns, Returns-bind,
  Returns-raise_if, Returns-ok, Returns-any,
}
use etroute.Python.Text.{Text}
use etroute.Python.FileSystem.{FileSystem, IsLawful}
use etroute.LaunchSpec.{ProotLaunchSpec, validate, has_shell}
use etroute.LaunchSpec.Binds.{IsNormal}
use etroute.LaunchSpec.Valid.{released, validate-IsResolved, validate-validate}
use etroute.LaunchSpec.Argv.{command_line, build_proot_argv-eq}
use etroute.ExecutionBackend.Config.{
  BackendError, ExecutionRequest, ProotConfig, launch_spec, to_launch_spec, build_argv,
  validate_config, validate_request,
}

map_err-eq-ok :
    {E F A : Type 0} (f : E → F) (m : Result E A) (a : A) → map_err f m ≡ ok a → m ≡ ok a
map_err-eq-ok f (ok b) a h = cc
map_err-eq-ok f (err e) a h = cc

map_err-Returns :
    {E F A : Type 0} (P : A → Type 0) (f : E → F) (m : Result E A)
    → Returns P m
    → Returns P (map_err f m)
map_err-Returns P f (ok a) h = Returns-ok P (h.at a refl)
map_err-Returns P f (err e) h = record { at = λ b p. cc }

-- A specification that came out of `validate`, for this request.
record IsFor (fs : FileSystem) (c : ProotConfig) (r : ExecutionRequest) (v : ProotLaunchSpec)
    : Type 0 where
  given : ProotLaunchSpec
  made : validate fs given ≡ ok v
  command : given.command ≡ r.executable ∷ r.arguments
  rootfs : given.rootfs ≡ fs.resolve c.rootfs
  release : given.kernel_release ≡ c.kernel_release

validate_request-eq :
    (fs : FileSystem) (r : ExecutionRequest) → Returns (λ q. q ≡ r) (validate_request fs r)
unfolding validate_request
validate_request-eq fs r =
    Returns-raise_if _ _ _ λ _. Returns-raise_if _ _ _ λ _. Returns-ok (λ q. q ≡ r) refl

validate_config-eq :
    (fs : FileSystem) (c : ProotConfig)
    → Returns (λ d. d ≡ record c { rootfs = fs.resolve c.rootfs }) (validate_config fs c)
unfolding validate_config
validate_config-eq fs c =
    let P : ProotConfig → Type 0 = λ d. d ≡ record c { rootfs = fs.resolve c.rootfs } in
    Returns-raise_if P _ _ λ _.
      Returns-raise_if P _ _
        λ _. Returns-raise_if P _ _ λ _. Returns-bind _ P Returns-any λ u _. Returns-ok P refl

to_launch_spec-IsFor :
    (fs : FileSystem) (c : ProotConfig) (r : ExecutionRequest)
    → Returns (IsFor fs c r) (to_launch_spec fs c r)
unfolding to_launch_spec
to_launch_spec-IsFor fs c r =
    let P = IsFor fs c r in
    Returns-bind _ P (validate_config-eq fs c) λ config d.
      Returns-bind _ P (validate_request-eq fs r) λ request q.
        Returns-bind _ P Returns-any λ binds _. map_err-Returns P launch_spec _ (record {
          at = λ v made. record {
            given = _;
            made = made;
            command = ap (λ (x : ExecutionRequest). x.executable ∷ x.arguments) q;
            rootfs = ap (λ (x : ProotConfig). x.rootfs) d;
            release = ap (λ (x : ProotConfig). x.kernel_release) d;
          };
        })

-- On a lawful file system, a request that is turned into a launch specification gets one with the
-- request's executable and arguments as the command, the resolved rootfs with a shell, and binds
-- that exist, are absolute and free of `..`, and are in normal form.
pub to_launch_spec-IsValid :
    (fs : FileSystem)
    → IsLawful fs
    → (c : ProotConfig) (r : ExecutionRequest) (v : ProotLaunchSpec) → to_launch_spec fs c r ≡ ok v
    → (v.command ≡ r.executable ∷ r.arguments)
      × (v.rootfs ≡ fs.resolve c.rootfs)
      × (has_shell fs v.rootfs ≡ true)
      × All (IsNormal fs) v.binds
to_launch_spec-IsValid fs law c r v made =
    let f = (to_launch_spec-IsFor fs c r).at v made in
    let s = (validate-IsResolved fs law f.given).at v f.made in
    (
      s.command ∙ f.command,
      s.origin ∙ ap fs.resolve f.rootfs ∙ law.resolve_idem c.rootfs,
      s.valid.shell,
      s.valid.binds.0,
    )

-- On a lawful file system, the command line of an execution is that of its launch specification as
-- validated once, with a blank kernel release left out; a request that is turned into a
-- specification always gets a command line, and one that is not raises its error.
build_argv-eq :
    (fs : FileSystem)
    → IsLawful fs
    → (c : ProotConfig) (binary : Text) (supports : Bool) (r : ExecutionRequest)
    → ((v : ProotLaunchSpec)
        → to_launch_spec fs c r ≡ ok v
        → build_argv fs c binary supports r ≡ ok (command_line binary (released v) supports))
      × ((e : BackendError)
          → to_launch_spec fs c r ≡ err e
          → build_argv fs c binary supports r ≡ err e)
unfolding build_argv ◌>>=◌
build_argv-eq fs law c binary supports r = (
  λ v made.
      let f = (to_launch_spec-IsFor fs c r).at v made in
      rw (
        made,
        (build_proot_argv-eq fs law binary v supports).0 (released v)
            (validate-validate fs law f.given v f.made),
      ),
  λ e failed. rw failed,
)
