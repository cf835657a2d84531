-- ===== src/ExecutionBackend/Registry/Lookup.antt =====
-- execution_backend.py: lookup in the registry, and the available backends.
use etroute.Prelude.{
  ◌≡◌, refl, ◌∙◌, ap, sym, true, false, Option, none, some, List, [], ◌∷◌, Result, ok, ◌>>=◌,
  raise_if, >>=-eq-ok, if◌then◌else◌, Returns, Returns-bind, Returns-raise_if, Returns-ok,
  Returns-self, not-false,
}
use etroute.Python.Text.{Text, codes, text_eq}
use etroute.Python.FileSystem.{FileSystem, IsLawful}
use etroute.LaunchSpec.{has_shell, is_unsafe_directory}
use etroute.Python.Dict.{find, set}
use etroute.Python.Dict.Laws.{find-set}
use etroute.ExecutionBackend.Config.{BackendError, ProotConfig, validate_config, check_binds}
use etroute.ExecutionBackend.Machine.{Machine, resolve_proot}
use etroute.ExecutionBackend.Running.{ProotBackend}
use etroute.ExecutionBackend.Registry.{
  ExecutionBackend, native, proot, backend_id, Registry, register_all, get_backend, require_backend,
  available_backends, default_registry, init_proot, probe, proot_capabilities,
}

-- The last of the backends with this identifier.
abbrev last_with : Text → List ExecutionBackend → Option ExecutionBackend → Option ExecutionBackend
last_with id [] found = found
last_with id (b ∷ bs) found = last_with id bs (if text_eq (backend_id b) id then some b else found)

get-register_all :
    (bs : List ExecutionBackend) (registry : Registry) (id : Text)
    → get_backend (register_all bs registry) id ≡ last_with id bs (get_backend registry id)
unfolding register_all get_backend
get-register_all [] registry id = refl
get-register_all (b ∷ bs) registry id =
    get-register_all bs (set (backend_id b) b registry) id
    ∙ ap (last_with id bs) (find-set (backend_id b) id b registry)

-- A registry of some backends finds for an identifier the last backend that has it.
get-registry :
    (bs : List ExecutionBackend) (id : Text)
    → get_backend (register_all bs []) id ≡ last_with id bs none
get-registry bs id =
    get-register_all bs [] id ∙ ap (last_with id bs) (unfold get_backend find in refl)

-- `validate` on a configuration that it returned.
record IsChecked (fs : FileSystem) (c d : ProotConfig) : Type 0 where
  resolved : d ≡ record c { rootfs = fs.resolve c.rootfs }
  directory : fs.is_dir (fs.resolve c.rootfs) ≡ true
  shell : has_shell fs (fs.resolve c.rootfs) ≡ true
  safe : is_unsafe_directory c.guest_working_directory ≡ false
  binds : check_binds fs c.binds ≡ ok tt

of_unit : {E : Type 0} (m : Result E (Unit {0})) (u : Unit {0}) → m ≡ ok u → m ≡ ok tt
of_unit m u e = e

validate_config-IsChecked :
    (fs : FileSystem) (c : ProotConfig) → Returns (IsChecked fs c) (validate_config fs c)
unfolding validate_config
validate_config-IsChecked fs c =
    let P = IsChecked fs c in
    Returns-raise_if P _ _ λ directory. Returns-raise_if P _ _ λ shell.
      Returns-raise_if P _ _ λ safe.
        Returns-bind (λ u. check_binds fs c.binds ≡ ok u) P Returns-self
          λ u binds. Returns-ok P (record {
            resolved = refl;
            directory = not-false _ directory;
            shell = not-false _ shell;
            safe = safe;
            binds = of_unit _ u binds;
          })

validate_config-again :
    (fs : FileSystem) (c : ProotConfig)
    → IsLawful fs
    → IsChecked fs c (record c { rootfs = fs.resolve c.rootfs })
    → let d = record c { rootfs = fs.resolve c.rootfs } in validate_config fs d ≡ ok d
unfolding validate_config ◌>>=◌ raise_if
validate_config-again fs c law h =
    rw (law.resolve_idem c.rootfs, h.directory, h.shell, h.safe, h.binds)

-- Of a backend that was constructed.
record IsMade (m : Machine) (c : ProotConfig) (b : ProotBackend) : Type 0 where
  config : validate_config m.files b.config ≡ ok b.config
  binary : resolve_proot m b.config.proot_binary ≡ ok b.resolved_binary
  idle : b.running ≡ []

init_proot-IsMade :
    (m : Machine) → IsLawful m.files → (c : ProotConfig) → Returns (IsMade m c) (init_proot m c)
unfolding init_proot
init_proot-IsMade m law c =
    let P = IsMade m c in
    Returns-bind _ P (validate_config-IsChecked m.files c) λ d checked.
      Returns-bind (λ t. resolve_proot m d.proot_binary ≡ ok t) P Returns-self
        λ binary found.
          Returns-ok P (record { config = stable d checked; binary = found; idle = refl })
  where
    stable : (d : ProotConfig) → IsChecked m.files c d → validate_config m.files d ≡ ok d
    stable d checked = rw checked.resolved (validate_config-again m.files c law (moved d checked))
      where
        moved :
            (d : ProotConfig)
            → IsChecked m.files c d
            → IsChecked m.files c (record c { rootfs = m.files.resolve c.rootfs })
        moved d h = record {
          resolved = refl;
          directory = h.directory;
          shell = h.shell;
          safe = h.safe;
          binds = h.binds;
        }

made-available :
    (describe : BackendError → Text) (m : Machine) (c : ProotConfig) (b : ProotBackend)
    → IsMade m c b
    → (probe describe m (proot b)).available ≡ true
unfolding probe proot_capabilities ◌>>=◌
made-available describe m c b h = rw (h.config, h.binary)

default_backends :
    (m : Machine) (c : ProotConfig) (registry : Registry)
    → default_registry m (some c) ≡ ok registry
    → (b : ProotBackend) × (init_proot m c ≡ ok b)
      × (registry ≡ (codes "proot", proot b) ∷ (codes "native", native []) ∷ [])
unfolding default_registry register_all set backend_id text_eq
default_backends m c registry h =
    let (b, made, e) = >>=-eq-ok (init_proot m c) _ h in (b, made, sym (cc e))

-- On a lawful file system, which stays as it is, the default registry for a configuration, if it is
-- made, offers the PRoot backend first and the native one behind it: both are available, and
-- `require` finds both.
default_registry-available :
    (describe : BackendError → Text) (m : Machine)
    → IsLawful m.files
    → (c : ProotConfig) (registry : Registry) → default_registry m (some c) ≡ ok registry
    → (b : ProotBackend) × (init_proot m c ≡ ok b)
      × (require_backend registry (codes "proot") ≡ ok (proot b))
      × (require_backend registry (codes "native") ≡ ok (native []))
      × (available_backends describe m registry ≡ proot b ∷ native [] ∷ [])
unfolding require_backend get_backend find text_eq available_backends
default_registry-available describe m law c registry h =
    let (b, made, e) = default_backends m c registry h in
    let available = made-available describe m c b ((init_proot-IsMade m law c).at b made) in
    (b, made, rw e refl, rw e refl, rw (e, available) refl)
