-- ===== src/LaunchSpec/Argv.antt =====
-- proot_launch_spec.py: the command line of `build_proot_argv`, and the mark that ends its options.
use etroute.Prelude.{
  ◌≡◌, refl, Bool, true, false, not, ◌&&◌, Option, none, some, List, [], ◌∷◌, ◌++◌, append_assoc,
  append-nil, subst, All, All-append, ok, err, ◌>>=◌, ◌==◌, if◌then◌else◌, arith, Bool-cases, inl,
  inr,
}
use etroute.Python.Text.{Text, codes, text_eq}
use etroute.Python.PurePath.{slash, parse, root_of, is_absolute}
use etroute.Python.FileSystem.{FileSystem, IsLawful}
use etroute.LaunchSpec.{
  LaunchBind, ProotLaunchSpec, LaunchError, validate, build_proot_argv, bind_text, if_text,
  is_safe_guest, is_unsafe_directory,
}
use etroute.LaunchSpec.Binds.{IsNormal, bind_texts, bind_arguments-eq}
use etroute.LaunchSpec.Valid.{validate-IsResolved}

-- The options in front of `--`, from a validated specification.
abbrev pub options : ProotLaunchSpec → Bool → List Text
options v supports =
    codes "--rootfs"
    ∷ v.rootfs
    ∷ ((if v.root_id then codes "--root-id" ∷ [] else [])
        ++ (if_text v.kernel_release (λ release. (codes "--kernel-release=" ++ release) ∷ [])
            ++ ((if v.kill_on_exit && supports then codes "--kill-on-exit" ∷ [] else [])
                ++ (bind_texts v.binds
                    ++ if_text v.guest_working_directory (λ cwd. codes "--cwd" ∷ cwd ∷ [])))))

abbrev pub command_line : Text → ProotLaunchSpec → Bool → List Text
command_line binary v supports = binary ∷ (options v supports ++ (codes "--" ∷ v.command))

-- On a lawful file system, a specification that validates is launched by the options and the
-- command of its validated form, with each bind as it was validated once; one that does not
-- validate raises its error.
pub build_proot_argv-eq :
    (fs : FileSystem)
    → IsLawful fs
    → (binary : Text) (s : ProotLaunchSpec) (supports : Bool)
    → ((v : ProotLaunchSpec)
        → validate fs s ≡ ok v
        → build_proot_argv fs binary s supports ≡ ok (command_line binary v supports))
      × ((e : LaunchError) → validate fs s ≡ err e → build_proot_argv fs binary s supports ≡ err e)
unfolding build_proot_argv ◌>>=◌
build_proot_argv-eq fs law binary s supports = (
  λ v made.
      let r = (validate-IsResolved fs law s).at v made in
      rw (made, bind_arguments-eq fs v.binds r.valid.binds.0) (simp append_assoc),
  λ e failed. rw failed,
)

-- No element is the mark `--`.
abbrev pub NoMark : Text → Type 0
NoMark o = text_eq o (codes "--") ≡ false

absolute-NoMark : (t s : Text) → is_absolute (parse t) ≡ true → NoMark (t ++ s)
unfolding is_absolute parse text_eq
absolute-NoMark [] s h = cc
absolute-NoMark (c ∷ t) s h = elim (Bool-cases (c == slash)) [
  | inl e ↦ ground arith
  | inr e ↦ cc (rw (e, root_of) at h)
]

rooted : (t u : Text) → u ≡ t → is_absolute (parse u) ≡ true → NoMark t
rooted t u e h =
    rw (← append-nil t) (absolute-NoMark t [] (subst (λ x. is_absolute (parse x) ≡ true) e h))

safe-absolute : (t : Text) → not (is_safe_guest t) ≡ false → is_absolute (parse t) ≡ true
unfolding is_safe_guest
safe-absolute t h = ground arith

bind_texts-NoMark :
    (fs : FileSystem)
    → IsLawful fs
    → (bs : List LaunchBind) → All (IsNormal fs) bs
    → All NoMark (bind_texts bs)
unfolding bind_text
bind_texts-NoMark fs law [] h = tt
bind_texts-NoMark fs law (b ∷ bs) h = (
  unfold text_eq in refl,
  (
    absolute-NoMark b.host _
        (subst (λ t. is_absolute (parse t) ≡ true) h.0.host (law.resolve-absolute b.host)),
    bind_texts-NoMark fs law bs h.1,
  ),
)

release-NoMark :
    (o : Option Text)
    → All NoMark (if_text o (λ release. (codes "--kernel-release=" ++ release) ∷ []))
unfolding if_text text_eq
release-NoMark none = tt
release-NoMark (some []) = tt
release-NoMark (some (c ∷ s)) = (refl, tt)

directory-NoMark :
    (o : Option Text)
    → is_unsafe_directory o ≡ false
    → All NoMark (if_text o (λ cwd. codes "--cwd" ∷ cwd ∷ []))
unfolding if_text text_eq is_unsafe_directory
directory-NoMark none h = tt
directory-NoMark (some []) h = tt
directory-NoMark (some (c ∷ s)) h =
    (refl, (rooted (c ∷ s) (c ∷ s) refl (safe-absolute (c ∷ s) h), tt))

flag-NoMark : (b : Bool) (flag : Text) → NoMark flag → All NoMark (if b then flag ∷ [] else [])
flag-NoMark true flag h = (h, tt)
flag-NoMark false flag h = tt

-- On a lawful file system, the options of a validated specification hold no `--`, and its command
-- is that of the specification it was made from.
pub options-NoMark :
    (fs : FileSystem)
    → IsLawful fs
    → (s v : ProotLaunchSpec) (supports : Bool) → validate fs s ≡ ok v
    → All NoMark (options v supports) × (v.command ≡ s.command)
unfolding text_eq
options-NoMark fs law s v supports made =
    let r = (validate-IsResolved fs law s).at v made in
    (
      (
        refl,
        (
          rooted v.rootfs _ r.valid.resolved (law.resolve-absolute v.rootfs),
          All-append NoMark _ _ (flag-NoMark v.root_id _ refl) (
              All-append NoMark _ _ (release-NoMark v.kernel_release) (
                All-append NoMark _ _ (flag-NoMark (v.kill_on_exit && supports) _ refl) (
                  All-append NoMark _ _ (bind_texts-NoMark fs law v.binds r.valid.binds.0)
                    (directory-NoMark v.guest_working_directory r.valid.directory)))),
        ),
      ),
      r.command,
    )
