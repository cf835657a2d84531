-- ===== src/EtRoute/Names/Laws.antt =====
-- etroute.py: names as paths, and digests.
use etroute.Prelude.{
  and-eq-true, ℕ, ◌≡◌, refl, ◌≢◌, ◌∙◌, ap, true, false, not, List, [], ◌∷◌, all, ◌==◌, arith, ok,
  raise_if-eq-ok, not-false, Returns, Returns-bind, Returns-raise_if, Returns-ok, Returns-self,
}
use etroute.Python.Text.{Text, text_eq, text_eq→eq}
use etroute.Python.PurePath.{
  parse, split, is_name, slash, PurePath, Root, relative, root_of, keep_names,
}
use etroute.Python.Runtime.{Runtime}
use etroute.EtRoute.Names.{
  is_name_head, is_name_char, is_environment_name, validate_name, is_sha256, normalize_sha256,
  verify_checksum,
}

char-no_slash : (c : ℕ) → is_name_char c ≡ true → (c == slash) ≡ false
unfolding is_name_char is_name_head
char-no_slash c h = ground (arith, h)

split-chars :
    (c : ℕ) (s : Text)
    → (c == slash) ≡ false
    → all is_name_char s ≡ true
    → split (c ∷ s) ≡ (c ∷ s) ∷ []
unfolding split
split-chars c [] h g = rw h
split-chars c (d ∷ s) h g =
    let (head_d, tail_s) = and-eq-true _ _ g in
    rw (h, split-chars d s (char-no_slash d head_d) tail_s)

head-no_slash : (c : ℕ) → is_name_head c ≡ true → ((c == slash) ≡ false) × ((c == b'.') ≡ false)
unfolding is_name_head
head-no_slash c h = (ground (arith, h), ground (arith, h))

not_dot : (c : ℕ) → (c == b'.') ≡ false → c ≢ b'.'
not_dot c h e = ground (arith, h, e)

is_name-head : (c : ℕ) (s : Text) → (c == b'.') ≡ false → is_name (c ∷ s) ≡ true
unfolding is_name text_eq
is_name-head c s h = rw h (ground arith)

of_parts :
    (r q : Root) (ns ms : List Text)
    → r ≡ q
    → ns ≡ ms
    → ◌≡◌ {A = PurePath} (record { root = r; names = ns }) (record { root = q; names = ms })
of_parts r q ns ms e f = cc

relative_root : (c : ℕ) (s : Text) → (c == slash) ≡ false → root_of (c ∷ s) ≡ relative
unfolding root_of
relative_root c s h = rw h

keep_one : (w : Text) → is_name w ≡ true → keep_names (w ∷ []) ≡ w ∷ []
unfolding keep_names
keep_one w n = rw n

kept :
    (c : ℕ) (s : Text)
    → (c == slash) ≡ false
    → is_name (c ∷ s) ≡ true
    → split (c ∷ s) ≡ (c ∷ s) ∷ []
    → parse (c ∷ s) ≡ record { root = relative; names = (c ∷ s) ∷ [] }
unfolding parse
kept c s h n e =
    of_parts (root_of (c ∷ s)) relative (keep_names (split (c ∷ s))) ((c ∷ s) ∷ [])
      (relative_root c s h) (ap keep_names e ∙ keep_one (c ∷ s) n)

-- A name that is accepted is a single, relative path component that does not begin with a dot.
validate_name-parse :
    (c : ℕ) (s : Text)
    → validate_name (c ∷ s) ≡ ok tt
    → (parse (c ∷ s) ≡ record { root = relative; names = (c ∷ s) ∷ [] }) × (c ≢ b'.')
unfolding validate_name is_environment_name
validate_name-parse c s h =
    let accepted : is_environment_name (c ∷ s) ≡ true =
      not-false _ (raise_if-eq-ok (not (is_environment_name (c ∷ s))) _ h) in
    let (front, bounded) = and-eq-true _ _ accepted in
    let (head_c, tail_s) = and-eq-true _ _ front in
    let (no_slash, no_dot) = head-no_slash c head_c in
    (
      kept c s no_slash (is_name-head c s no_dot) (split-chars c s no_slash tail_s),
      not_dot c no_dot,
    )

normalize_sha256-is_sha256 :
    (rt : Runtime) (value : Text) → Returns (λ d. is_sha256 d ≡ true) (normalize_sha256 rt value)
unfolding normalize_sha256
normalize_sha256-is_sha256 rt value =
    Returns-raise_if (λ d. is_sha256 d ≡ true) _ _
      λ h. Returns-ok (λ d. is_sha256 d ≡ true) (not-false _ h)

abbrev Verified : Runtime → Text → Text → Text → Type 0
Verified rt actual value d =
    (d ≡ actual) × (normalize_sha256 rt value ≡ ok d) × (is_sha256 d ≡ true)

verify_checksum-Verified :
    (rt : Runtime) (actual value : Text)
    → Returns (Verified rt actual value) (verify_checksum rt actual value)
unfolding verify_checksum
verify_checksum-Verified rt actual value =
    let P = Verified rt actual value in
    Returns-bind (λ d. normalize_sha256 rt value ≡ ok d) P Returns-self
      λ d normal. Returns-raise_if P _ _ λ same.
        let e = text_eq→eq actual d (not-false _ same) in
        Returns-ok P (refl, rw e normal, rw e ((normalize_sha256-is_sha256 rt value).at d normal))

-- A checksum that verifies is the digest of the file and the normal form of the expected text, and
-- is 64 lower-case hexadecimal digits.
verify_checksum-digest :
    (rt : Runtime) (actual value digest : Text)
    → verify_checksum rt actual value ≡ ok digest
    → (digest ≡ actual) × (normalize_sha256 rt value ≡ ok digest) × (is_sha256 digest ≡ true)
verify_checksum-digest rt actual value digest h =
    (verify_checksum-Verified rt actual value).at digest h
