-- ===== src/EtRoute/Install/Confined.antt =====
-- etroute.py: archives whose extraction stays in the fresh rootfs.
use etroute.Prelude.{◌≡◌, refl, ◌∙◌, false, Option, none, some, List, any, ok, err}
use etroute.Python.Text.{Text}
use etroute.EtRoute.Errors.{Checked}
use etroute.EtRoute.Install.{
  Site, InstallArguments, Containers, Member, check_members, extract_members, checked_extract,
  extracted, safe_extract_tar,
}

-- What tarfile documents of an archive in which no member is a link: each member is written to its
-- own path, so that members that were checked change nothing in the containers.
abbrev pub IsConfined : Site → Type 0
IsConfined site =
    (tarball : Text) (members : List Member) (containers : Containers)
    → site.members tarball ≡ some members
    → check_members site.escapes members ≡ ok tt
    → any (λ (m : Member). m.is_link) members ≡ false
    → (site.extract tarball containers).0 ≡ containers

-- No member of the tarball is a link.
abbrev pub IsLinkFree : Site → InstallArguments → Type 0
IsLinkFree site a =
    (members : List Member)
    → site.members (site.resolve a.tarball) ≡ some members
    → any (λ (m : Member). m.is_link) members ≡ false

pub safe_extract_tar-same :
    (site : Site) (tarball : Text) (containers : Containers)
    → IsConfined site
    → ((members : List Member)
        → site.members tarball ≡ some members
        → any (λ (m : Member). m.is_link) members ≡ false)
    → (safe_extract_tar site tarball containers).0 ≡ containers
unfolding safe_extract_tar
safe_extract_tar-same site tarball containers confined free = of_members (site.members tarball) refl
  where
    of_extracted : (r : Containers × Option (List Text)) → (extracted tarball r).0 ≡ r.0
    of_extracted (after, none) = refl
    of_extracted (after, some files) = refl

    of_checked :
        (members : List Member) (checked : Checked (Unit {0}))
        → site.members tarball ≡ some members
        → check_members site.escapes members ≡ checked
        → (checked_extract site tarball containers checked).0 ≡ containers
    of_checked members (err e) there c = refl
    of_checked members (ok tt) there c =
        of_extracted (site.extract tarball containers)
        ∙ confined tarball members containers there c (free members there)

    of_members :
        (o : Option (List Member))
        → site.members tarball ≡ o
        → (extract_members site tarball containers o).0 ≡ containers
    of_members none there = refl
    of_members (some members) there =
        of_checked members (check_members site.escapes members) there refl
