-- ===== src/ExecutionBackend/Registry.antt =====
-- execution_backend.py: the backends and their probes, and the registry of backends.
pub mod Lookup
use etroute.Prelude.{
  ℕ, zero, suc, ◌≡◌, Bool, true, false, not, ◌&&◌, ◌||◌, Option, none, some, List, [], ◌∷◌, ◌++◌,
  length, map, Result, ok, err, ◌>>=◌, if◌then◌else◌, ltb, ◌+◌, ◌/◌, ◌%◌,
}
use etroute.Python.Lines.{occurs, is_line_end}
use etroute.Python.Text.{Text, codes, text_eq, strip, starts_with}
use etroute.Python.Dict.{Dict, find, set}
use etroute.ExecutionBackend.Config.{BackendError, Checked, ProotConfig, validate_config}
use etroute.ExecutionBackend.Machine.{Machine, resolve_proot}
use etroute.ExecutionBackend.Running.{Table, ProotBackend}

pub record BackendCapabilities : Type 0 where
  pub available : Bool
  pub architecture : Text
  pub interactive : Bool
  pub gpu : Bool
  pub vulkan : Bool
  pub details : List (Text × Text)

pub data ExecutionBackend : Type 0 where
  native : Table → ExecutionBackend
  proot : ProotBackend → ExecutionBackend

unfoldable pub backend_id : ExecutionBackend → Text
backend_id (native table) = codes "native"
backend_id (proot b) = codes "proot"

-- `text or "unknown"`
abbrev or_unknown : Text → Text
or_unknown [] = codes "unknown"
or_unknown (c ∷ t) = c ∷ t

-- `_probe_flag`
unfoldable pub probe_flag : Machine → Text → Text → Bool
unfolding occurs
probe_flag m binary flag = elim (m.output_of (binary ∷ codes "--help" ∷ [])) [
  | none ↦ false
  | some output ↦ occurs flag output
]

-- `text.splitlines()[0]`
unfoldable first_line : Text → Text
first_line [] = []
first_line (c ∷ t) = let rest = first_line t in if is_line_end c then [] else c ∷ rest

unfoldable version_of : Option Text → Option Text
unfolding strip first_line
version_of none = none
version_of (some output) = elim (strip output) [ [] ↦ none | c ∷ t ↦ some (first_line (c ∷ t)) ]

-- `_read_version`
unfoldable pub read_version : Machine → Text → Text
unfolding version_of
read_version m binary = elim (version_of (m.output_of (binary ∷ codes "--version" ∷ []))) [
  | some version ↦ version
  | none ↦ elim (version_of (m.output_of (binary ∷ codes "-V" ∷ []))) [
    | some version ↦ version
    | none ↦ codes "unknown"
  ]
]

-- `ProotBackend.__init__`
unfoldable pub init_proot : Machine → ProotConfig → Checked ProotBackend
init_proot m c = do
  config ← validate_config m.files c
  binary ← resolve_proot m config.proot_binary
  ok (record {
    config = config;
    resolved_binary = binary;
    supports_kill_on_exit = probe_flag m binary (codes "--kill-on-exit");
    running = [];
  })

-- `str(flag).lower()`
abbrev bool_text : Bool → Text
bool_text true = codes "true"
bool_text false = codes "false"

-- `str(n)`, the digits behind `rest`; `n + 1` steps are enough.
abbrev digits : ℕ → ℕ → Text → Text
digits zero n rest = rest
digits (suc fuel) n rest =
    let more = digits fuel (n / 10) ((48 + n % 10) ∷ rest) in
    if ltb n 10 then (48 + n) ∷ rest else more

abbrev decimal : ℕ → Text
decimal n = digits (suc n) n []

-- The `try` of `ProotBackend.probe`.
unfoldable pub proot_capabilities : Machine → ProotBackend → Checked BackendCapabilities
proot_capabilities m b = do
  config ← validate_config m.files b.config
  binary ← resolve_proot m config.proot_binary
  ok (record {
    available = true;
    architecture = or_unknown m.architecture;
    interactive = true;
    gpu = false;
    vulkan = false;
    details =
        (codes "runtime", codes "proot")
        ∷ (codes "binary", binary)
        ∷ (codes "version", read_version m binary)
        ∷ (codes "rootfs", config.rootfs)
        ∷ (codes "root_id", bool_text config.root_id)
        ∷ (codes "kill_on_exit", bool_text (config.kill_on_exit && b.supports_kill_on_exit))
        ∷ (codes "bind_count", decimal (length config.binds))
        ∷ (codes "launch_schema", codes "1")
        ∷ [];
  })

-- `except (OSError, ValueError)`, which catches all errors of the `try`; `describe` is `str`.
abbrev or_unavailable :
    (BackendError → Text) → Machine → Checked BackendCapabilities → BackendCapabilities
or_unavailable describe m (ok c) = c
or_unavailable describe m (err e) = record {
  available = false;
  architecture = or_unknown m.architecture;
  interactive = false;
  gpu = false;
  vulkan = false;
  details = (codes "error", describe e) ∷ [];
}

-- `probe` of both backends
unfoldable pub probe : (BackendError → Text) → Machine → ExecutionBackend → BackendCapabilities
unfolding proot_capabilities
probe describe m (native table) = record {
  available = true;
  architecture = or_unknown m.architecture;
  interactive = true;
  gpu = false;
  vulkan = false;
  details = (codes "platform", or_unknown m.system) ∷ (codes "python", m.python_version) ∷ [];
}
probe describe m (proot b) = or_unavailable describe m (proot_capabilities m b)

-- `self._backends`
abbrev pub Registry : Type 0
Registry = Dict ExecutionBackend

-- The dict comprehension of `__init__`, from a dict on.
unfoldable pub register_all : List ExecutionBackend → Registry → Registry
unfolding set backend_id
register_all [] registry = registry
register_all (backend ∷ backends) registry =
    register_all backends (set (backend_id backend) backend registry)

-- `get`
unfoldable pub get_backend : Registry → Text → Option ExecutionBackend
unfolding find
get_backend registry id = find id registry

-- `require`: KeyError names the identifier.
unfoldable pub require_backend : Registry → Text → Result Text ExecutionBackend
unfolding get_backend
require_backend registry id = elim (get_backend registry id) [
  | none ↦ err id
  | some backend ↦ ok backend
]

-- `available`
unfoldable pub available_backends :
    (BackendError → Text) → Machine → Registry → List ExecutionBackend
unfolding probe
available_backends describe m [] = []
available_backends describe m ((k, b) ∷ registry) =
    let rest = available_backends describe m registry in
    if (probe describe m b).available then b ∷ rest else rest

-- `default_registry`
unfoldable pub default_registry : Machine → Option ProotConfig → Checked Registry
unfolding register_all
default_registry m none = ok (register_all (native [] ∷ []) [])
default_registry m (some config) = do
  backend ← init_proot m config
  ok (register_all (proot backend ∷ native [] ∷ []) [])
