-- ===== src/EtRoute/Install.antt =====
-- etroute.py: `install_rootfs` as a transaction on the directory of containers.
pub mod Confined
pub mod Atomic
pub mod Outcome
pub mod Others
use etroute.Prelude.{
  ℕ, Bool, true, false, not, ◌&&◌, Option, none, some, List, [], ◌∷◌, ◌++◌, if◌then◌else◌, ◌==◌,
  Result, ok, err, ◌>>=◌, ◌>>◌, raise_if,
}
use etroute.Python.Text.{Text, codes, text_eq}
use etroute.Python.Value.{contains}
use etroute.Python.Dict.{Dict, find, set, drop}
use etroute.Python.Runtime.{Runtime}
use etroute.EtRoute.Errors.{
  EtRouteError, Checked, error, raise, no_tarball, member_escapes, member_is_device, not_extracted,
  bad_manifest, already_exists, cli, filesystem, conflict, validation,
}
use etroute.EtRoute.Names.{normalize_sha256, validate_name, verify_checksum, validate_rootfs}

pub record Provenance : Type 0 where
  pub schema_version : ℕ
  pub image : Text
  pub version : Text
  pub arch : Text
  pub source : Text
  pub sha256 : Text
  pub captured_at : Text

-- The file manifest.json: what `Provenance.read` makes of it.
pub data Manifest : Type 0 where
  absent unreadable : Manifest
  readable : Provenance → Manifest

-- The directory of an environment: the regular files of its rootfs, and its manifest.
pub record Directory : Type 0 where
  pub rootfs : List Text
  pub manifest : Manifest

-- The directory of containers, hidden directories included.
abbrev pub Containers : Type 0
Containers = Dict Directory

pub record Member : Type 0 where
  pub name : Text
  pub is_device : Bool
  -- a symbolic or a hard link
  pub is_link : Bool

-- What an installation meets outside the program. The calls of `os.replace`, `write_atomic` and
-- `shutil.rmtree` succeed, or raise OSError.
pub record Site : Type 0 where
  pub runtime : Runtime
  pub resolve : Text → Text
  pub is_file : Text → Bool
  -- the digest of a file, none for OSError
  pub sha256_of : Text → Option Text
  -- the members of an archive, none for TarError and OSError
  pub members : Text → Option (List Member)
  -- whether a member, resolved in the fresh rootfs, lies outside of it
  pub escapes : Text → Bool
  -- what `extractall` makes of the containers, and the files that it leaves in the fresh rootfs, none
  -- for TarError and OSError: a member may go through a link that an earlier one made
  pub extract : Text → Containers → Containers × Option (List Text)
  pub captured_at : Text
  pub process_id : Text
  pub written : Bool
  pub backed_up : Bool
  pub moved : Bool
  pub restored : Bool
  pub removed : Bool

pub record InstallArguments : Type 0 where
  pub name : Text
  pub tarball : Text
  pub expected_sha256 : Text
  pub image : Text
  pub version : Text
  pub arch : Text
  pub replace : Bool

-- An exception of `install_rootfs`.
pub data Failure : Type 0 where
  etroute_error : EtRouteError → Failure
  os_error : Failure

-- The loop over the members.
unfoldable pub check_members : (Text → Bool) → List Member → Checked (Unit {0})
check_members escapes [] = ok tt
check_members escapes (m ∷ members) = do
  raise_if (escapes m.name) (error (member_escapes m.name) validation)
  raise_if m.is_device (error (member_is_device m.name) validation)
  check_members escapes members

abbrev pub extracted : Text → Containers × Option (List Text) → Containers × Checked (List Text)
extracted tarball (after, none) = (after, raise (not_extracted tarball) filesystem)
extracted tarball (after, some files) = (after, ok files)

abbrev pub checked_extract :
    Site → Text → Containers → Checked (Unit {0}) → Containers × Checked (List Text)
checked_extract site tarball containers (err e) = (containers, err e)
checked_extract site tarball containers (ok checked) =
    extracted tarball (site.extract tarball containers)

abbrev pub extract_members :
    Site → Text → Containers → Option (List Member) → Containers × Checked (List Text)
extract_members site tarball containers none =
    (containers, raise (not_extracted tarball) filesystem)
extract_members site tarball containers (some members) =
    checked_extract site tarball containers (check_members site.escapes members)

-- `safe_extract_tar`: the containers and the files of the rootfs behind it. All members are checked
-- before the first one is extracted.
unfoldable pub safe_extract_tar : Site → Text → Containers → Containers × Checked (List Text)
unfolding check_members
safe_extract_tar site tarball containers =
    extract_members site tarball containers (site.members tarball)

-- `Provenance.read`
abbrev pub read_manifest : Text → Manifest → Checked Provenance
read_manifest path (readable p) = ok p
read_manifest path _ = raise (bad_manifest path) validation

unfoldable pub is_same : Provenance → InstallArguments → Text → Bool
unfolding text_eq
is_same p a digest =
    text_eq p.sha256 digest
    && text_eq p.image a.image
    && text_eq p.version a.version
    && text_eq p.arch a.arch

-- An existing directory: true if it is up to date, false if it is to be replaced.
abbrev pub existing_manifest : InstallArguments → Text → Manifest → Checked Bool
existing_manifest a digest absent = raise (already_exists a.name) conflict
existing_manifest a digest unreadable = raise (bad_manifest a.name) validation
existing_manifest a digest (readable p) =
    if is_same p a digest then ok true else raise (already_exists a.name) conflict

abbrev pub check_existing : InstallArguments → Text → Option Directory → Checked Bool
check_existing a digest none = ok false
check_existing a digest (some d) =
    if a.replace then ok false else existing_manifest a digest d.manifest

abbrev pub stage_files : Site → InstallArguments → Text → Checked (List Text) → Checked Directory
stage_files site a digest unpacked = do
  files ← unpacked
  shell ← validate_rootfs (contains files) a.name
  ok (record {
    rootfs = files;
    manifest = readable (record {
      schema_version = 1;
      image = a.image;
      version = a.version;
      arch = a.arch;
      source = site.resolve a.tarball;
      sha256 = digest;
      captured_at = site.captured_at;
    });
  })

-- The staging directory, up to its manifest, and the containers behind the extraction.
unfoldable pub stage : Site → InstallArguments → Text → Containers → Containers × Checked Directory
unfolding safe_extract_tar
stage site a digest containers =
    let (after, unpacked) = safe_extract_tar site (site.resolve a.tarball) containers in
    (after, stage_files site a digest unpacked)

-- `.{name}.replaced-{pid}`
unfoldable pub backup_name : Site → Text → Text
backup_name site name = b'.' ∷ (name ++ (codes ".replaced-" ++ site.process_id))

-- The move of the staging directory, with a backup that is put back or removed.
unfoldable pub replace_old :
    Site → Text → Directory → Directory → Containers → Containers × Result Failure (Unit {0})
unfolding set drop backup_name
replace_old site name old new containers =
    let backup = backup_name site name in
    let aside = set backup old (drop name containers) in
    if site.moved
    then (if site.removed
        then (drop backup (set name new aside), ok tt)
        else (set name new aside, err os_error))
    else (if site.restored
        then (set name old (drop backup aside), err os_error)
        else (aside, err os_error))

-- `os.replace` onto a backup that an earlier run left raises OSError.
unfoldable pub can_back_up : Site → Text → Containers → Bool
unfolding find backup_name
can_back_up site name containers = elim (find (backup_name site name) containers) [
  | none ↦ site.backed_up
  | some d ↦ false
]

unfoldable pub publish :
    Site → Text → Option Directory → Directory → Containers → Containers × Result Failure (Unit {0})
unfolding set replace_old can_back_up
publish site name none new containers =
    if site.moved then (set name new containers, ok tt) else (containers, err os_error)
publish site name (some old) new containers =
    if can_back_up site name containers
    then replace_old site name old new containers
    else (containers, err os_error)

-- The directory that exists now is looked for behind the extraction.
abbrev pub staged_or_error :
    Site
    → InstallArguments
    → Containers × Checked Directory
    → Containers × Result Failure (Unit {0})
staged_or_error site a (containers, err e) = (containers, err (etroute_error e))
staged_or_error site a (containers, ok new) =
    if site.written
    then publish site a.name (find a.name containers) new containers
    else (containers, err os_error)

-- Behind the check of an existing directory.
abbrev pub install_checked :
    Site
    → InstallArguments
    → Containers
    → Text
    → Checked Bool
    → Containers × Result Failure (Unit {0})
install_checked site a containers digest (err e) = (containers, err (etroute_error e))
install_checked site a containers digest (ok true) = (containers, ok tt)
install_checked site a containers digest (ok false) =
    staged_or_error site a (stage site a digest containers)

abbrev pub install_verified :
    Site
    → InstallArguments
    → Containers
    → Result Failure Text
    → Containers × Result Failure (Unit {0})
install_verified site a containers (err e) = (containers, err e)
install_verified site a containers (ok digest) =
    install_checked site a containers digest (check_existing a digest (find a.name containers))

abbrev pub as_failure : {A : Type 0} → Checked A → Result Failure A
as_failure (ok a) = ok a
as_failure (err e) = err (etroute_error e)

-- `verify_checksum`: the digest that is expected is read before the file is.
abbrev pub verify_digest : Site → Text → Option Text → Result Failure Text
verify_digest site expected none = err os_error
verify_digest site expected (some actual) =
    as_failure (verify_checksum site.runtime actual expected)

-- The checks in front of the directory of containers.
unfoldable pub verify_tarball : Site → InstallArguments → Result Failure Text
verify_tarball site a = do
  valid ← as_failure (validate_name a.name)
  let tarball = site.resolve a.tarball
  raise_if (not (site.is_file tarball)) (etroute_error (error (no_tarball tarball) cli))
  expected ← as_failure (normalize_sha256 site.runtime a.expected_sha256)
  verify_digest site a.expected_sha256 (site.sha256_of tarball)

-- `install_rootfs`
unfoldable pub install_rootfs :
    Site → InstallArguments → Containers → Containers × Result Failure (Unit {0})
unfolding verify_tarball stage publish find
install_rootfs site a containers = install_verified site a containers (verify_tarball site a)
