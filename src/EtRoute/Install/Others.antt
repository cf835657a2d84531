-- ===== src/EtRoute/Install/Others.antt =====
-- etroute.py: the other directories in an installation.
use etroute.Prelude.{
  if-both, sym, subst, ◌≡◌, refl, ◌∙◌, Bool, true, false, Option, none, some, Result, ok, err,
}
use etroute.Python.Text.{Text, text_eq}
use etroute.Python.Dict.{find, set, drop}
use etroute.EtRoute.Errors.{Checked}
use etroute.EtRoute.Install.{
  Site, InstallArguments, Directory, Containers, Failure, backup_name, replace_old, can_back_up,
  publish, stage, verify_tarball, install_rootfs, install_verified, install_checked,
  staged_or_error, check_existing,
}
use etroute.EtRoute.Install.Confined.{IsConfined, IsLinkFree, safe_extract_tar-same}
use etroute.EtRoute.Install.Atomic.{find-set_other, find-drop_other}

-- For another name than the environment's and the backup's.
module _ (site : Site) (name k : Text) (before : Containers) (ne : text_eq name k ≡ false)
    (aside_ne : text_eq (backup_name site name) k ≡ false) where
  abbrev Same : Containers × Result Failure (Unit {0}) → Type 0
  Same (after, result) = find k after ≡ find k before

  replace_old-Same : (old new : Directory) → Same (replace_old site name old new before)
  unfolding replace_old
  replace_old-Same old new =
      let B = backup_name site name in
      let aside = set B old (drop name before) in
      let same_aside : find k aside ≡ find k before =
        find-set_other B k old (drop name before) aside_ne ∙ find-drop_other name k before ne in
      let same_new : find k (set name new aside) ≡ find k before =
        find-set_other name k new aside ne ∙ same_aside in
      if-both Same site.moved _ _
        (if-both Same site.removed _ _
          (find-drop_other B k (set name new aside) aside_ne ∙ same_new) same_new)
        (if-both Same site.restored _ _
          (find-set_other name k old (drop B aside) ne
            ∙ (find-drop_other B k aside aside_ne ∙ same_aside))
          same_aside)

  publish-Same :
      (found : Option Directory) (new : Directory) → Same (publish site name found new before)
  unfolding publish
  publish-Same none new = if-both Same site.moved _ _ (find-set_other name k new before ne) refl
  publish-Same (some old) new =
      if-both Same (can_back_up site name before) _ _ (replace_old-Same old new) refl

module _ (site : Site) (a : InstallArguments) (k : Text) (before : Containers)
    (ne : text_eq a.name k ≡ false) (aside_ne : text_eq (backup_name site a.name) k ≡ false) where
  abbrev IsSame : Containers × Result Failure (Unit {0}) → Type 0
  IsSame (after, result) = find k after ≡ find k before

  staged-IsSame : (staged : Checked Directory) → IsSame (staged_or_error site a (before, staged))
  staged-IsSame (err e) = refl
  staged-IsSame (ok new) =
      if-both IsSame site.written _ _
        (publish-Same site a.name k before ne aside_ne (find a.name before) new) refl

  checked-IsSame :
      (digest : Text) (checked : Checked Bool)
      → (stage site a digest before).0 ≡ before
      → IsSame (install_checked site a before digest checked)
  checked-IsSame digest (err e) same = refl
  checked-IsSame digest (ok true) same = refl
  checked-IsSame digest (ok false) same =
      subst (λ mid. IsSame (staged_or_error site a (mid, (stage site a digest before).1)))
        (sym same) (staged-IsSame (stage site a digest before).1)

  verified-IsSame :
      (verified : Result Failure Text)
      → ((digest : Text) → (stage site a digest before).0 ≡ before)
      → IsSame (install_verified site a before verified)
  verified-IsSame (err e) same = refl
  verified-IsSame (ok digest) same =
      checked-IsSame digest (check_existing a digest (find a.name before)) (same digest)

stage-same :
    (site : Site) (a : InstallArguments) (digest : Text) (before : Containers)
    → IsConfined site
    → IsLinkFree site a
    → (stage site a digest before).0 ≡ before
unfolding stage
stage-same site a digest before confined free =
    safe_extract_tar-same site (site.resolve a.tarball) before confined free

-- Of an archive without links, where `extractall` writes nothing outside of the destination for such
-- an archive whose members were checked: an installation, however it ends, leaves every directory but
-- the environment's own and the backup's as it was.
pub install_rootfs-others :
    (site : Site) (a : InstallArguments) (k : Text) (before : Containers)
    → IsConfined site
    → IsLinkFree site a
    → text_eq a.name k ≡ false
    → text_eq (backup_name site a.name) k ≡ false
    → find k (install_rootfs site a before).0 ≡ find k before
unfolding install_rootfs
install_rootfs-others site a k before confined free ne aside_ne =
    verified-IsSame site a k before ne aside_ne (verify_tarball site a)
      λ digest. stage-same site a digest before confined free
