-- ===== src/EtRoute/Argv/Policy.antt =====
-- etroute.py: the text of a bind, and the bind policy of package mode.
use etroute.Prelude.{
  ℕ, ◌≡◌, refl, ◌∙◌, ap, ◌⊎◌, inl, inr, Bool, true, false, Option, none, some, List, [], ◌∷◌, ◌++◌,
  All, if◌then◌else◌, ◌==◌, ok, arith, append-nil, Returns, Returns-bind, Returns-raise_if,
  Returns-ok, Returns-any, Returns-mono, Returns-self, or-eq-false,
}
use etroute.Python.Text.{Text, codes, has}
use etroute.Python.Value.{contains}
use etroute.Python.PurePath.{parse, show}
use etroute.Python.FileSystem.{FileSystem}
use etroute.EtRoute.Argv.{
  BindMount, package_mode, validate_mount, mount_text, split_once, without_mark, mount_of,
  marked_mount, parse_split, parse_bind, forbidden_guests, validate_package_extra_binds,
  package_policy_binds, effective_binds, build_proot_argv,
}

turned : (c : ℕ) → (b':' == c) ≡ false → (c == b':') ≡ false
turned c h = ground (arith, h)

split_once-colon :
    (host guest : Text)
    → has b':' host ≡ false
    → split_once (host ++ (b':' ∷ guest)) ≡ some (host, guest)
unfolding split_once has
split_once-colon [] guest h = refl
split_once-colon (c ∷ s) guest h =
    let (other, rest) = or-eq-false _ _ h in rw (turned c other, split_once-colon s guest rest)

without_mark-mark : (guest : Text) → without_mark (guest ++ codes "!") ≡ some guest
unfolding without_mark
without_mark-mark [] = refl
without_mark-mark (c ∷ []) = refl
without_mark-mark (c ∷ (d ∷ s)) = rw (without_mark-mark (d ∷ s))

mount_of-text :
    (host guest : Text) (n : Bool)
    → (n ≡ true) ⊎ (without_mark guest ≡ none)
    → mount_of host (guest ++ (if n then codes "!" else []))
      ≡ record { host = host; guest = guest; no_dereference = n }
mount_of-text host guest true h =
    ap (marked_mount host (guest ++ codes "!")) (without_mark-mark guest)
mount_of-text host guest false (inl h) = cc
mount_of-text host guest false (inr h) =
    ap (mount_of host) (append-nil guest) ∙ ap (marked_mount host guest) h

-- The bind that `parse_bind` reads from the text of a bind is that bind, and is validated, if the
-- host has no colon and the guest does not end in `!` unless the bind is marked itself.
pub parse_bind-mount_text :
    (fs : FileSystem) (b : BindMount)
    → has b':' b.host ≡ false
    → (b.no_dereference ≡ true) ⊎ (without_mark b.guest ≡ none)
    → parse_bind fs (mount_text b) ≡ validate_mount fs b
unfolding parse_bind
parse_bind-mount_text fs b no_colon marked =
    ap (parse_split fs) (split_once-colon b.host _ no_colon)
    ∙ (ap (validate_mount fs) (mount_of-text b.host b.guest b.no_dereference marked))

abbrev pub IsAllowed : BindMount → Type 0
IsAllowed b = contains forbidden_guests (show (parse b.guest)) ≡ false

extra-IsAllowed :
    (binds : List BindMount)
    → Returns (λ u. All IsAllowed binds) (validate_package_extra_binds binds)
unfolding validate_package_extra_binds
extra-IsAllowed [] = Returns-ok _ tt
extra-IsAllowed (b ∷ binds) =
    Returns-raise_if (λ u. All IsAllowed (b ∷ binds)) _ _
      λ allowed. Returns-mono _ _ (λ u rest. (allowed, rest)) (extra-IsAllowed binds)

-- A command line of package mode, from its parts.
record IsPackage (fs : FileSystem) (home : Option Text) (binds : List BindMount) : Type 0 where
  policy : List BindMount
  allowed : All IsAllowed binds
  given : package_policy_binds fs home ≡ ok policy

effective-IsPackage :
    (fs : FileSystem) (home : Option Text) (binds : List BindMount)
    → Returns (λ e. IsPackage fs home binds) (effective_binds fs home package_mode binds)
unfolding effective_binds
effective-IsPackage fs home binds = Returns-bind _ _ (extra-IsAllowed binds) λ u allowed.
    Returns-bind (λ p. package_policy_binds fs home ≡ ok p) _ Returns-self
      λ policy given.
        Returns-ok (λ e. IsPackage fs home binds)
          (record { policy = policy; allowed = allowed; given = given })

home-given :
    (fs : FileSystem) (home : Option Text) (policy : List BindMount)
    → package_policy_binds fs home ≡ ok policy
    → (c : ℕ) × (s : Text) × (home ≡ some (c ∷ s))
unfolding package_policy_binds
home-given fs none policy h = cc
home-given fs (some []) policy h = cc
home-given fs (some (c ∷ s)) policy h = (c, s, refl)

-- In package mode a command line is built only if HOME is set and not empty, and if no bind of the
-- caller has a guest path whose normal form is one of the four files of identities.
pub package_mode-IsAllowed :
    (fs : FileSystem) (home : Option Text) (rootfs : Text) (binds : List BindMount)
    (command : List Text) (release : Option Text) (binary : Text) (kill : Bool) (argv : List Text)
    → build_proot_argv fs home rootfs package_mode binds command release binary kill ≡ ok argv
    → All IsAllowed binds × (c : ℕ) × (s : Text) × (home ≡ some (c ∷ s))
unfolding build_proot_argv
package_mode-IsAllowed fs home rootfs binds command release binary kill argv h =
    let packaged : Returns (λ a. IsPackage fs home binds)
        (build_proot_argv fs home rootfs package_mode binds command release binary kill) =
      Returns-raise_if _ _ _ λ _.
        Returns-bind _ (λ a. IsPackage fs home binds) (effective-IsPackage fs home binds)
          λ e p.
            Returns-bind _ (λ a. IsPackage fs home binds) Returns-any λ options _. Returns-ok _ p in
    let p = packaged.at argv h in
    let (c, s, e) = home-given fs home p.policy p.given in (p.allowed, c, s, e)
