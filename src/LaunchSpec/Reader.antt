-- ===== src/LaunchSpec/Reader.antt =====
-- proot_launch_spec.py: the readers `from_dict` and `from_json` of a launch specification. The values
-- are those of a JSON document. Of `no_dereference`, which is stored as it is given, only the truth is
-- kept: nothing else of it decides what `serialize` writes.
pub mod Laws
use etroute.Prelude.{
  Bool, true, false, not, ◌||◌, ◌==◌, Option, none, some, List, [], ◌∷◌, length, Result, ok, err,
  ◌>>=◌, ◌>>◌, raise_if, map_err, if◌then◌else◌,
}
use etroute.Python.Text.{Text, codes, text_eq, strip}
use etroute.Python.Value.{
  ℤ, pos, negsuc, Value, null, bool, int, float, str, arr, obj, opaque, Items, nil, cons, Fields,
  end, field, get, keys, without, sorted, is_some, is_one, or_default, tuple_of, of_texts,
  of_optional,
}
use etroute.Python.Runtime.{Runtime, to_text}
use etroute.Python.PurePath.{parse, show}
use etroute.Python.Value.{contains}
use etroute.Python.FileSystem.{FileSystem}
use etroute.LaunchSpec.{
  LaunchError, unsupported_schema, bind_source_missing, bind_destination_unsafe, rootfs_missing,
  rootfs_without_shell, empty_command, working_directory_unsafe, duplicate_guest, LaunchBind,
  ProotLaunchSpec, is_safe_guest, has_shell, is_blank_command, is_unsafe_directory, normalize_env,
  validate, Checked,
}

pub data ReadError : Type 0 where
  -- the errors of `validate`, where the schema version may be any value
  spec_error : LaunchError → ReadError
  unsupported_version : Value → ReadError
  unknown_fields : List Text → ReadError
  fields_required invalid_json not_an_object : ReadError
  type_error attribute_error : ReadError

abbrev Read : Type 0 → Type 0
Read = Result ReadError

abbrev pub as_read : LaunchError → ReadError
as_read (unsupported_schema n) = unsupported_version (int (pos n))
as_read e = spec_error e

-- `bool(value)`
unfoldable pub is_truthy : Value → Bool
unfolding text_eq
is_truthy null = false
is_truthy (bool b) = b
is_truthy (int (pos n)) = not (n == 0)
is_truthy (int (negsuc n)) = true
is_truthy (float t) = not (text_eq t (codes "0.0") || text_eq t (codes "-0.0"))
is_truthy (str []) = false
is_truthy (str (c ∷ s)) = true
is_truthy (arr nil) = false
is_truthy (arr (cons v vs)) = true
is_truthy (obj end) = false
is_truthy (obj (field k v d)) = true
is_truthy (opaque n) = true

abbrev or_type_error : {A : Type 0} → Option A → Read A
or_type_error none = err type_error
or_type_error (some a) = ok a

-- The text from which `Path` makes a path.
abbrev path_text : Value → Read Text
path_text (str t) = ok t
path_text _ = err type_error

-- The arguments of `LaunchBind`.
pub record BindArgs : Type 0 where
  pub host : Value
  pub guest : Value
  pub no_dereference : Value

-- `LaunchBind(**bind)`
unfoldable pub bind_args : Value → Read BindArgs
unfolding get keys without
bind_args (obj d) = do
  raise_if
      (not (
        length (without (keys d) (codes "host" ∷ codes "guest" ∷ codes "no_dereference" ∷ []))
        == 0))
      type_error
  host ← or_type_error (get d (codes "host"))
  guest ← or_type_error (get d (codes "guest"))
  ok (record {
    host = host;
    guest = guest;
    no_dereference = or_default (get d (codes "no_dereference")) (bool false);
  })
bind_args _ = err type_error

unfoldable pub all_bind_args : Items → Read (List BindArgs)
unfolding bind_args
all_bind_args nil = ok []
all_bind_args (cons v vs) = do b ← bind_args v; bs ← all_bind_args vs; ok (b ∷ bs)

-- `LaunchBind.validate`, of what may be no text
unfoldable pub read_bind : FileSystem → BindArgs → Read LaunchBind
unfolding is_safe_guest is_truthy
read_bind fs b = do
  given ← path_text b.host
  let host = fs.resolve given
  raise_if (not (fs.exists host)) (spec_error (bind_source_missing host))
  guest ← path_text b.guest
  raise_if (not (is_safe_guest guest)) (spec_error (bind_destination_unsafe guest))
  ok (record {
    host = host;
    guest = show (parse guest);
    no_dereference = is_truthy b.no_dereference;
  })

unfoldable pub read_binds : FileSystem → List Text → List BindArgs → Read (List LaunchBind)
unfolding read_bind
read_binds fs seen_guests [] = ok []
read_binds fs seen_guests (bind ∷ binds) = do
  normalized ← read_bind fs bind
  raise_if (contains seen_guests normalized.guest) (spec_error (duplicate_guest normalized.guest))
  rest ← read_binds fs (normalized.guest ∷ seen_guests) binds
  ok (normalized ∷ rest)

-- The arguments of `ProotLaunchSpec`, where `from_dict` has made tuples of two of them.
pub record SpecArgs : Type 0 where
  pub rootfs : Value
  pub command : Items
  pub binds : List BindArgs
  pub root_id : Value
  pub kill_on_exit : Value
  pub kernel_release : Value
  pub guest_working_directory : Value
  pub environment : Value
  pub schema_version : Value

abbrev pub directory_of : Value → Read (Option Text)
directory_of null = ok none
directory_of (str t) = ok (some t)
directory_of _ = err type_error

abbrev items_of : Value → Read Fields
items_of (obj d) = ok d
items_of _ = err attribute_error

-- `tuple(data.get("command") or ())`
unfoldable pub tuple_or_empty : Value → Option Items
unfolding is_truthy tuple_of
tuple_or_empty v = if is_truthy v then tuple_of v else some nil

module _ (fs : FileSystem) (r : Runtime) where
  unfoldable pub texts_of : Items → List Text
  unfolding to_text
  texts_of nil = []
  texts_of (cons v vs) = to_text r v ∷ texts_of vs

  unfoldable pub env_of : Fields → List (Text × Text)
  unfolding to_text
  env_of end = []
  env_of (field key value d) = (key, to_text r value) ∷ env_of d

  unfoldable pub release_of : Value → Option Text
  unfolding to_text strip is_truthy
  release_of v = if is_truthy v then some (strip (to_text r v)) else none

  -- `ProotLaunchSpec.validate`, of what may have other types
  unfoldable pub validate_args : SpecArgs → Read ProotLaunchSpec
  unfolding is_one texts_of read_binds env_of release_of is_truthy
  validate_args a = do
    raise_if (not (is_one a.schema_version)) (unsupported_version a.schema_version)
    given ← path_text a.rootfs
    let rootfs = fs.resolve given
    raise_if (not (fs.is_dir rootfs)) (spec_error (rootfs_missing rootfs))
    raise_if (not (has_shell fs rootfs)) (spec_error (rootfs_without_shell rootfs))
    raise_if (is_blank_command (texts_of a.command)) (spec_error empty_command)
    cwd ← directory_of a.guest_working_directory
    raise_if (is_unsafe_directory cwd) (spec_error working_directory_unsafe)
    binds ← read_binds fs [] a.binds
    entries ← items_of a.environment
    environment ← map_err as_read (normalize_env (env_of entries) [])
    ok (record {
      rootfs = rootfs;
      command = texts_of a.command;
      binds = binds;
      root_id = is_truthy a.root_id;
      kill_on_exit = is_truthy a.kill_on_exit;
      kernel_release = release_of a.kernel_release;
      guest_working_directory = cwd;
      environment = environment;
      schema_version = 1;
    })

  abbrev pub allowed : List Text
  allowed =
      codes "schema_version"
      ∷ codes "rootfs"
      ∷ codes "command"
      ∷ codes "binds"
      ∷ codes "root_id"
      ∷ codes "kill_on_exit"
      ∷ codes "kernel_release"
      ∷ codes "guest_working_directory"
      ∷ codes "environment"
      ∷ []

  -- `ProotLaunchSpec.from_dict`
  unfoldable pub from_dict : Fields → Read ProotLaunchSpec
  unfolding get keys without sorted tuple_or_empty tuple_of all_bind_args validate_args
  from_dict entries = do
    let unknown = sorted (without (keys entries) allowed)
    raise_if (not (length unknown == 0)) (unknown_fields unknown)
    raise_if
        (not (is_some (get entries (codes "rootfs")))
          || not (is_some (get entries (codes "command"))))
        fields_required
    command ← or_type_error (tuple_or_empty (or_default (get entries (codes "command")) null))
    bind_items ← or_type_error (tuple_of (or_default (get entries (codes "binds")) (arr nil)))
    binds ← all_bind_args bind_items
    validate_args (record {
      rootfs = or_default (get entries (codes "rootfs")) null;
      command = command;
      binds = binds;
      root_id = or_default (get entries (codes "root_id")) (bool true);
      kill_on_exit = or_default (get entries (codes "kill_on_exit")) (bool true);
      kernel_release = or_default (get entries (codes "kernel_release")) null;
      guest_working_directory = or_default (get entries (codes "guest_working_directory")) null;
      environment = or_default (get entries (codes "environment")) (obj end);
      schema_version = or_default (get entries (codes "schema_version")) (int (pos 1));
    })

  abbrev from_value : Option Value → Read ProotLaunchSpec
  from_value none = err invalid_json
  from_value (some (obj d)) = from_dict d
  from_value (some _) = err not_an_object

  -- `ProotLaunchSpec.from_json`
  unfoldable pub from_json : Text → Read ProotLaunchSpec
  unfolding from_dict
  from_json text = from_value (r.loads text)
