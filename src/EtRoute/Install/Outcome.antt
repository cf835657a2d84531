-- ===== src/EtRoute/Install/Outcome.antt =====
-- etroute.py: the ways in which `install_rootfs` ends.
use etroute.Prelude.{
  if-both, and-eq-true, ◌≡◌, refl, ◌≢◌, ◌⊎◌, inl, inr, ◌∙◌, ap, subst, Bool, true, false, Option,
  none, some, List, if◌then◌else◌, Bool-cases, Result, ok, err, Returns, Returns-bind, Returns-ok,
  Returns-any,
}
use etroute.Python.Text.{Text, text_eq→eq}
use etroute.Python.Dict.{find}
use etroute.EtRoute.Errors.{Checked}
use etroute.EtRoute.Install.{
  Site, InstallArguments, Provenance, Manifest, absent, unreadable, readable, Directory, Containers,
  Failure, etroute_error, os_error, is_same, backup_name, safe_extract_tar, stage, verify_tarball,
  install_rootfs, install_verified, install_checked, staged_or_error, check_existing,
  existing_manifest,
}
use etroute.EtRoute.Install.Atomic.{Ends, publish-Ends}
use etroute.EtRoute.Install.Confined.{IsConfined, IsLinkFree, safe_extract_tar-same}

-- The provenance of a directory is that of the arguments and of the digest.
pub record Shows (a : InstallArguments) (digest : Text) (d : Directory) : Type 0 where
  pub provenance : Provenance
  pub manifest : d.manifest ≡ readable provenance
  pub sha256 : provenance.sha256 ≡ digest
  pub image : provenance.image ≡ a.image
  pub version : provenance.version ≡ a.version
  pub arch : provenance.arch ≡ a.arch

stage-Shows :
    (site : Site) (a : InstallArguments) (digest : Text) (before : Containers)
    → Returns (Shows a digest) (stage site a digest before).1
unfolding stage
stage-Shows site a digest before = Returns-bind _ _ Returns-any λ files _.
    Returns-bind _ _ Returns-any λ shell _. Returns-ok (Shows a digest) (record {
      provenance = _;
      manifest = refl;
      sha256 = refl;
      image = refl;
      version = refl;
      arch = refl;
    })

is_same-Shows :
    (a : InstallArguments) (digest : Text) (p : Provenance) (files : List Text)
    → is_same p a digest ≡ true
    → Shows a digest (record { rootfs = files; manifest = readable p })
unfolding is_same
is_same-Shows a digest p files h =
    let (three, arch) = and-eq-true _ _ h in
    let (two, version) = and-eq-true _ _ three in
    let (sha256, image) = and-eq-true _ _ two in
    record {
      provenance = p;
      manifest = refl;
      sha256 = text_eq→eq _ _ sha256;
      image = text_eq→eq _ _ image;
      version = text_eq→eq _ _ version;
      arch = text_eq→eq _ _ arch;
    }

not_replaced : (b : Bool) (m : Checked Bool) → (if b then ok false else m) ≡ ok true → m ≡ ok true
not_replaced true m h = cc
not_replaced false m h = h

-- A directory that is up to date shows the provenance already.
existing-Shows :
    (a : InstallArguments) (digest : Text) (found : Option Directory)
    → check_existing a digest found ≡ ok true
    → (d : Directory) × (found ≡ some d) × Shows a digest d
existing-Shows a digest none h = cc
existing-Shows a digest (some d) h =
    (d, refl, of_manifest d.rootfs d.manifest (not_replaced a.replace _ h))
  where
    of_manifest :
        (files : List Text) (m : Manifest)
        → existing_manifest a digest m ≡ ok true
        → Shows a digest (record { rootfs = files; manifest = m })
    of_manifest files absent g = cc
    of_manifest files unreadable g = cc
    of_manifest files (readable p) g = elim (Bool-cases (is_same p a digest)) [
      | inl e ↦ is_same-Shows a digest p files e
      | inr e ↦ let wrong = rw e at g in cc wrong
    ]

-- All ways in which an installation ends; `mid` are the containers behind the extraction.
abbrev Ending :
    Site
    → InstallArguments
    → Containers
    → Containers
    → Containers × Result Failure (Unit {0})
    → Type 0
Ending site a before mid (after, result) =
    ((f : Failure) × (result ≡ err f) × ((after ≡ before) ⊎ (after ≡ mid)))
    ⊎ (((digest : Text) × (d : Directory) × (result ≡ ok tt)
          × (after ≡ before)
          × (verify_tarball site a ≡ ok digest)
          × (find a.name before ≡ some d)
          × Shows a digest d)
        ⊎ ((digest : Text) × (new : Directory) × (verify_tarball site a ≡ ok digest)
            × ((stage site a digest before).1 ≡ ok new)
            × Ends site a.name mid new (after, result)))

-- The containers behind the extraction, if it is reached.
unfoldable unpacked : Site → InstallArguments → Containers → Containers
unfolding safe_extract_tar
unpacked site a before = (safe_extract_tar site (site.resolve a.tarball) before).0

staged-Ending :
    (site : Site) (a : InstallArguments) (before mid : Containers) (digest : Text)
    (staged : Checked Directory)
    → verify_tarball site a ≡ ok digest
    → (stage site a digest before).1 ≡ staged
    → Ending site a before mid (staged_or_error site a (mid, staged))
staged-Ending site a before mid digest (err e) v s = inl (etroute_error e, refl, inr refl)
staged-Ending site a before mid digest (ok new) v s =
    if-both (Ending site a before mid) site.written _ _
      (inr (inr (digest, new, v, s, publish-Ends site a.name mid (find a.name mid) new refl)))
      (inl (os_error, refl, inr refl))

checked-Ending :
    (site : Site) (a : InstallArguments) (before : Containers) (digest : Text)
    (checked : Checked Bool)
    → verify_tarball site a ≡ ok digest
    → check_existing a digest (find a.name before) ≡ checked
    → Ending site a before (unpacked site a before) (install_checked site a before digest checked)
unfolding stage unpacked
checked-Ending site a before digest (err e) v c = inl (etroute_error e, refl, inl refl)
checked-Ending site a before digest (ok true) v c =
    let (d, there, shows) = existing-Shows a digest (find a.name before) c in
    inr (inl (digest, d, refl, refl, v, there, shows))
checked-Ending site a before digest (ok false) v c =
    staged-Ending site a before (unpacked site a before) digest (stage site a digest before).1 v
      refl

verified-Ending :
    (site : Site) (a : InstallArguments) (before : Containers) (verified : Result Failure Text)
    → verify_tarball site a ≡ verified
    → Ending site a before (unpacked site a before) (install_verified site a before verified)
verified-Ending site a before (err f) v = inl (f, refl, inl refl)
verified-Ending site a before (ok digest) v =
    checked-Ending site a before digest (check_existing a digest (find a.name before)) v refl

install_rootfs-Ending :
    (site : Site) (a : InstallArguments) (before : Containers)
    → Ending site a before (unpacked site a before) (install_rootfs site a before)
unfolding install_rootfs
install_rootfs-Ending site a before = verified-Ending site a before (verify_tarball site a) refl

installed :
    (site : Site) (a : InstallArguments) (before mid after : Containers)
    → Ending site a before mid (after, ok tt)
    → (digest : Text) × (d : Directory) × (verify_tarball site a ≡ ok digest)
      × (find a.name after ≡ some d)
      × Shows a digest d
installed site a before mid after (inl (e, r, same)) = cc r
installed site a before mid after (inr (inl (digest, d, r, same, v, there, shows))) =
    (digest, d, v, ap (find a.name) same ∙ there, shows)
installed site a before mid after (inr (inr (digest, new, v, s, inl (r, there)))) =
    (digest, new, v, there, (stage-Shows site a digest before).at new s)
installed site a before mid after (inr (inr (digest, new, v, s, inr (inl (r, there))))) = cc r
installed site a before mid after
      (inr (inr (digest, new, v, s, inr (inr (inl (r, gone, aside)))))) =
    cc r
installed site a before mid after (inr (inr (digest, new, v, s, inr (inr (inr (r, there)))))) = cc r

of_err : (f g : Failure) → ◌≡◌ {A = Result Failure (Unit {0})} (err f) (err g) → f ≡ g
of_err f g e = cc

abbrev Keeps : Site → InstallArguments → Containers → Containers → Failure → Type 0
Keeps site a before after f =
    ((f ≢ os_error) → after ≡ before)
    × ((find a.name after ≡ find a.name before)
        ⊎ (((find a.name after ≡ none)
              × (find (backup_name site a.name) after ≡ find a.name before))
            ⊎ ((digest : Text) × (new : Directory) × ((stage site a digest before).1 ≡ ok new)
                × (find a.name after ≡ some new))))

kept :
    (site : Site) (a : InstallArguments) (before after : Containers) (f : Failure)
    → Ending site a before before (after, err f)
    → Keeps site a before after f
kept site a before after f (inl (e, r, inl same)) = (λ _. same, inl (ap (find a.name) same))
kept site a before after f (inl (e, r, inr same)) = (λ _. same, inl (ap (find a.name) same))
kept site a before after f (inr (inl (digest, d, r, same, v, there, shows))) = cc r
kept site a before after f (inr (inr (digest, new, v, s, inl (r, there)))) = cc r
kept site a before after f (inr (inr (digest, new, v, s, inr (inl (r, there))))) =
    (λ other. absurd (other (of_err f os_error r)), inl there)
kept site a before after f (inr (inr (digest, new, v, s, inr (inr (inl (r, gone, aside)))))) =
    (λ other. absurd (other (of_err f os_error r)), inr (inl (gone, aside)))
kept site a before after f (inr (inr (digest, new, v, s, inr (inr (inr (r, there)))))) =
    (λ other. absurd (other (of_err f os_error r)), inr (inr (digest, new, s, there)))

unpacked-same :
    (site : Site) (a : InstallArguments) (before : Containers)
    → IsConfined site
    → IsLinkFree site a
    → unpacked site a before ≡ before
unfolding unpacked
unpacked-same site a before confined free =
    safe_extract_tar-same site (site.resolve a.tarball) before confined free

-- If an installation returns, the environment is there, and its manifest shows the verified digest
-- of the tarball and the image, the version and the architecture of the arguments.
pub install_rootfs-installs :
    (site : Site) (a : InstallArguments) (before after : Containers)
    → install_rootfs site a before ≡ (after, ok tt)
    → (digest : Text) × (d : Directory) × (verify_tarball site a ≡ ok digest)
      × (find a.name after ≡ some d)
      × Shows a digest d
install_rootfs-installs site a before after h =
    installed site a before (unpacked site a before) after (
      subst (Ending site a before (unpacked site a before)) h (install_rootfs-Ending site a before))

-- Of an archive without links, where `extractall` writes nothing outside of the destination for such
-- an archive whose members were checked: if an installation raises an ETRouteError, nothing has
-- changed. If it raises OSError, the environment is what it was, or what it was stands under the
-- backup's name, or the new one is in its place.
pub install_rootfs-keeps :
    (site : Site) (a : InstallArguments) (before after : Containers) (f : Failure)
    → IsConfined site
    → IsLinkFree site a
    → install_rootfs site a before ≡ (after, err f)
    → ((f ≢ os_error) → after ≡ before)
      × ((find a.name after ≡ find a.name before)
          ⊎ (((find a.name after ≡ none)
                × (find (backup_name site a.name) after ≡ find a.name before))
              ⊎ ((digest : Text) × (new : Directory) × ((stage site a digest before).1 ≡ ok new)
                  × (find a.name after ≡ some new))))
install_rootfs-keeps site a before after f confined free h = kept site a before after f (
    subst (λ mid. Ending site a before mid (after, err f))
      (unpacked-same site a before confined free)
      (subst (Ending site a before (unpacked site a before)) h
        (install_rootfs-Ending site a before)))
