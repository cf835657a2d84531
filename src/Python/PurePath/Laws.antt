-- ===== src/Python/PurePath/Laws.antt =====
-- The text of a parsed path is parsed to the same path.
use etroute.Prelude.{
  ℕ, ◌≡◌, refl, ap, ◌∙◌, true, false, List, [], ◌∷◌, ◌++◌, append-nil, All, Bool-cases, inl, inr,
  ◌==◌,
}
use etroute.Python.Text.{Text}
use etroute.Python.PurePath.{
  slash, Root, relative, single, double, root_of, second_root, third_root, push, split, is_name,
  keep_names, parse, join, or_dot, show,
}

abbrev NoSlash : Text → Type 0
NoSlash = All (λ c. (c == slash) ≡ false)

-- A name of a parsed path: not empty, not `.`, and without a slash.
abbrev IsName : Text → Type 0
IsName w = (is_name w ≡ true) × NoSlash w

push-NoSlash :
    (c : ℕ) (ws : List Text) → (c == slash) ≡ false → All NoSlash ws → All NoSlash (push c ws)
push-NoSlash c [] h k = ((h, tt), tt)
push-NoSlash c (w ∷ ws) h k = ((h, k.0), k.1)

split-NoSlash : (s : Text) → All NoSlash (split s)
unfolding split
split-NoSlash [] = (tt, tt)
split-NoSlash (c ∷ s) = elim (Bool-cases (c == slash)) [
  | inl e ↦ rw e (tt, split-NoSlash s)
  | inr e ↦ rw e (push-NoSlash c (split s) e (split-NoSlash s))
]

keep_names-IsName : (ws : List Text) → All NoSlash ws → All IsName (keep_names ws)
unfolding keep_names
keep_names-IsName [] h = tt
keep_names-IsName (w ∷ ws) h = elim (Bool-cases (is_name w)) [
  | inl e ↦ rw (e, keep_names) ((e, h.0), keep_names-IsName ws h.1)
  | inr e ↦ rw (e, keep_names) (keep_names-IsName ws h.1)
]

-- The names of a parsed path.
parse-IsName : (s : Text) → All IsName (parse s).names
unfolding parse
parse-IsName s = keep_names-IsName (split s) (split-NoSlash s)

-- A word without a slash, and what stands behind the slash after it.
split-word : (w : Text) → NoSlash w → split w ≡ w ∷ []
unfolding split
split-word [] h = refl
split-word (c ∷ w) h = rw (h.0, split-word w h.1)

split-append : (w s : Text) → NoSlash w → split (w ++ (slash ∷ s)) ≡ w ∷ split s
unfolding split
split-append [] s h = refl
split-append (c ∷ w) s h = rw (h.0, split-append w s h.1)

keep_names-cons :
    (w : Text) (ws : List Text) → is_name w ≡ true → keep_names (w ∷ ws) ≡ w ∷ keep_names ws
unfolding keep_names
keep_names-cons w ws h = rw h

keep_names-split-join : (ws : List Text) → All IsName ws → keep_names (split (join ws)) ≡ ws
unfolding join
keep_names-split-join [] h = unfold split keep_names in refl
keep_names-split-join (w ∷ []) h =
    rw (split-word w h.0.1, keep_names-cons w [] h.0.0) (unfold keep_names in refl)
keep_names-split-join (w ∷ v ∷ ws) h = rw (
  split-append w (join (v ∷ ws)) h.0.1,
  keep_names-cons w (split (join (v ∷ ws))) h.0.0,
  keep_names-split-join (v ∷ ws) h.1,
)

-- The joined names of a path do not begin with a slash.
abbrev Leads : Text → Type 0
Leads [] = Unit
Leads (c ∷ s) = (c == slash) ≡ false

Leads-append : (w s : Text) → IsName w → Leads (w ++ s)
unfolding is_name
Leads-append [] s h = absurd (true-ne-false h.0)
  where
    true-ne-false : false ≡ true → ⊥
    true-ne-false e = cc
Leads-append (c ∷ w) s h = h.1.0

Leads-join : (ws : List Text) → All IsName ws → Leads (join ws)
unfolding join
Leads-join [] h = tt
Leads-join (w ∷ []) h = rw (← append-nil w) (Leads-append w [] h.0)
Leads-join (w ∷ v ∷ ws) h = Leads-append w (slash ∷ join (v ∷ ws)) h.0

root_of-Leads : (s : Text) → Leads s → root_of s ≡ relative
unfolding root_of
root_of-Leads [] h = refl
root_of-Leads (c ∷ s) h = rw h

second_root-Leads : (s : Text) → Leads s → second_root s ≡ single
unfolding second_root
second_root-Leads [] h = refl
second_root-Leads (c ∷ s) h = rw h

third_root-Leads : (s : Text) → Leads s → third_root s ≡ double
unfolding third_root
third_root-Leads [] h = refl
third_root-Leads (c ∷ s) h = rw h

parse-or_dot :
    (s : Text)
    → Leads s
    → parse (or_dot s) ≡ record { root = relative; names = keep_names (split s) }
unfolding parse
parse-or_dot [] h = refl
parse-or_dot (c ∷ s) h = rw h

-- The text of a path whose names are names is parsed to that path.
parse-show :
    (root : Root) (names : List Text)
    → All IsName names
    → parse (show (record { root = root; names = names })) ≡ record { root = root; names = names }
unfolding show
parse-show relative names h =
    parse-or_dot (join names) (Leads-join names h)
    ∙ ap (λ (ns : List Text). record { root = relative; names = ns })
        (keep_names-split-join names h)
parse-show single names h =
    unfold parse in
    rw (second_root-Leads (join names) (Leads-join names h), keep_names-split-join names h)
parse-show double names h =
    unfold parse in
    rw (third_root-Leads (join names) (Leads-join names h), keep_names-split-join names h)

-- Normalising a path text twice is normalising it once.
pub parse-show-parse : (s : Text) → parse (show (parse s)) ≡ parse s
parse-show-parse s = parse-show (parse s).root (parse s).names (parse-IsName s)
