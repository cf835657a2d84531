-- ===== src/Tests/Manager.antt =====
-- etroute.py at concrete binds and installations.
use etroute.Prelude.{
  subst, any, Option, List, ℕ, ◌≡◌, refl, ◌≢◌, ◌⊎◌, inr, Bool, true, false, none, some, List, [],
  ◌∷◌, ok, err, ◌>>=◌, raise_if, All,
}
use etroute.Python.Text.{Text, codes, text_eq, strip, is_space, lower, has}
use etroute.Python.Value.{contains}
use etroute.Python.Dict.{find, set, drop}
use etroute.Python.PurePath.{parse, show, is_absolute, has_parent_part}
use etroute.LaunchSpec.{is_safe_guest}
use etroute.EtRoute.Names.{
  validate_name, is_environment_name, is_name_head, is_name_char, normalize_sha256, verify_checksum,
  is_sha256, is_hex, validate_rootfs, find_shell,
}
use etroute.EtRoute.Argv.{
  BindMount, package_mode, validate_mount, mount_text, parse_bind, without_mark, build_proot_argv,
  validate_package_extra_binds, package_policy_binds, policy_mounts, effective_binds, bind_options,
  serialize_mount, is_login_user,
}
use etroute.EtRoute.Argv.Policy.{IsAllowed, parse_bind-mount_text, package_mode-IsAllowed}
use etroute.EtRoute.Install.Confined.{IsConfined, IsLinkFree}
use etroute.EtRoute.Install.{
  Member, Site, InstallArguments, absent, Directory, Containers, os_error, backup_name, can_back_up,
  replace_old, publish, stage, safe_extract_tar, check_members, verify_tarball, install_rootfs,
}
use etroute.EtRoute.Install.Outcome.{Shows, install_rootfs-installs, install_rootfs-keeps}
use etroute.EtRoute.Install.Others.{install_rootfs-others}
use etroute.Tests.Host.{plain, disk}

name_valid : validate_name (codes "lab-1") ≡ ok tt
unfolding validate_name is_environment_name is_name_head is_name_char raise_if
name_valid = refl

abbrev digest_text : Text
digest_text = codes "00112233445566778899aabbccddeeff00112233445566778899aabbccddeeff"

abbrev given_digest : Text
given_digest = codes " 00112233445566778899AABBCCDDEEFF00112233445566778899aabbccddeeff"

digest_verified : verify_checksum plain digest_text given_digest ≡ ok digest_text
unfolding verify_checksum normalize_sha256 is_sha256 is_hex strip is_space lower text_eq ◌>>=◌
    raise_if
digest_verified = refl

abbrev mount : BindMount
mount = record { host = codes "/data"; guest = codes "/mnt"; no_dereference = false }

no_colon : has b':' mount.host ≡ false
unfolding has
no_colon = refl

no_mark : without_mark mount.guest ≡ none
unfolding without_mark
no_mark = refl

parse_bind-mount_text_example : parse_bind disk (mount_text mount) ≡ validate_mount disk mount
parse_bind-mount_text_example = parse_bind-mount_text disk mount no_colon (inr no_mark)

abbrev doubled : List BindMount
doubled = record { host = codes "/data"; guest = codes "//etc/passwd"; no_dereference = false } ∷ []

packaged :
    (argv : List Text) × (build_proot_argv disk
        (some (codes "/home"))
        (codes "lab")
        package_mode
        (mount ∷ [])
        []
        none
        (codes "proot")
        false
      ≡ ok argv)
unfolding build_proot_argv effective_binds package_policy_binds policy_mounts
    validate_package_extra_binds bind_options serialize_mount validate_mount is_safe_guest
    is_login_user ◌>>=◌ raise_if parse show is_absolute has_parent_part text_eq contains
packaged = (_, refl)

package_mode-IsAllowed_example :
    All IsAllowed (mount ∷ []) × (c : ℕ) × (s : Text) × (some (codes "/home") ≡ some (c ∷ s))
package_mode-IsAllowed_example =
    package_mode-IsAllowed disk (some (codes "/home")) (codes "lab") (mount ∷ []) [] none
      (codes "proot") false packaged.0 packaged.1

-- A site where the calls succeed or fail as given.
abbrev site : Bool → Bool → Site
site moved restored = record {
  runtime = plain;
  resolve = λ t. t;
  is_file = λ t. true;
  sha256_of = λ t. some digest_text;
  members = λ t. some (record { name = codes "bin/sh"; is_device = false; is_link = false } ∷ []);
  escapes = λ t. false;
  extract = λ t containers. (containers, some (codes "bin/sh" ∷ []));
  captured_at = codes "2026-01-01";
  process_id = codes "7";
  written = true;
  backed_up = true;
  moved = moved;
  restored = restored;
  removed = true;
}

abbrev args : InstallArguments
args = record {
  name = codes "lab-1";
  tarball = codes "lab.tar";
  expected_sha256 = given_digest;
  image = codes "debian";
  version = codes "12";
  arch = codes "arm64";
  replace = true;
}

abbrev old : Directory
old = record { rootfs = []; manifest = absent }

abbrev before : Containers
before = (codes "lab-1", old) ∷ (codes "lab-2", old) ∷ []

installed : (after : Containers) × (install_rootfs (site true true) args before ≡ (after, ok tt))
unfolding install_rootfs verify_tarball stage safe_extract_tar check_members publish can_back_up
    replace_old backup_name validate_rootfs find_shell validate_name is_environment_name
    is_name_head is_name_char verify_checksum normalize_sha256 is_sha256 is_hex strip is_space lower
    text_eq contains find set drop ◌>>=◌ raise_if
installed = (_, refl)

install_rootfs-installs_example :
    (digest : Text) × (d : Directory) × (verify_tarball (site true true) args ≡ ok digest)
    × (find args.name installed.0 ≡ some d)
    × Shows args digest d
install_rootfs-installs_example =
    install_rootfs-installs (site true true) args before installed.0 installed.1

broken :
    (after : Containers) × (install_rootfs (site false false) args before ≡ (after, err os_error))
unfolding install_rootfs verify_tarball stage safe_extract_tar check_members publish can_back_up
    replace_old backup_name validate_rootfs find_shell validate_name is_environment_name
    is_name_head is_name_char verify_checksum normalize_sha256 is_sha256 is_hex strip is_space lower
    text_eq contains find set drop ◌>>=◌ raise_if
broken = (_, refl)

confined : (moved restored : Bool) → IsConfined (site moved restored)
confined moved restored tarball members containers there checked free = refl

link_free : (moved restored : Bool) → IsLinkFree (site moved restored) args
link_free moved restored members there =
    subst (λ ms. any (λ (m : Member). m.is_link) ms ≡ false) (some_inj there) refl
  where
    some_inj : {x y : List Member} → ◌≡◌ {A = Option (List Member)} (some x) (some y) → x ≡ y
    some_inj e = cc

install_rootfs-keeps_example :
    ((os_error ≢ os_error) → broken.0 ≡ before)
    × ((find args.name broken.0 ≡ find args.name before)
        ⊎ (((find args.name broken.0 ≡ none)
              × (find (backup_name (site false false) args.name) broken.0 ≡ find args.name before))
            ⊎ ((digest : Text) × (new : Directory) × ((stage
                    (site false false)
                    args
                    digest
                    before).1
                  ≡ ok new)
                × (find args.name broken.0 ≡ some new))))
install_rootfs-keeps_example =
    install_rootfs-keeps (site false false) args before broken.0 os_error (confined false false)
      (link_free false false) broken.1

other_name : text_eq args.name (codes "lab-2") ≡ false
unfolding text_eq
other_name = refl

other_backup : text_eq (backup_name (site true true) args.name) (codes "lab-2") ≡ false
unfolding text_eq backup_name
other_backup = refl

install_rootfs-others_example :
    find (codes "lab-2") (install_rootfs (site true true) args before).0
    ≡ find (codes "lab-2") before
install_rootfs-others_example =
    install_rootfs-others (site true true) args (codes "lab-2") before (confined true true)
      (link_free true true) other_name other_backup
