-- ===== src/EtRoute/Install/Atomic.antt =====
-- etroute.py: the ways in which the publication of a staged directory ends.
use etroute.Prelude.{
  ◌≡◌, refl, ◌≢◌, ◌⊎◌, inl, inr, ◌∙◌, sym, ap, false, Option, none, some, ◌++◌, Bool-cases, length,
  length-append, Result, ok, err, arith,
}
use etroute.Python.Text.{Text, codes, text_eq, text_eq_refl, text_eq→eq}
use etroute.Python.Dict.{Dict, find, set, drop}
use etroute.Python.Dict.Laws.{find-set, find-drop}
use etroute.EtRoute.Install.{
  Site, Directory, Containers, Failure, os_error, backup_name, replace_old, can_back_up, publish,
}

backup-longer : (site : Site) (name : Text) → backup_name site name ≢ name
unfolding backup_name
backup-longer site name e =
    omega (arith, ap length e, length-append name (codes ".replaced-" ++ site.process_id))

backup-ne : (site : Site) (name : Text) → text_eq (backup_name site name) name ≡ false
backup-ne site name = elim (Bool-cases (text_eq (backup_name site name) name)) [
  | inl e ↦ absurd (backup-longer site name (text_eq→eq _ name e))
  | inr e ↦ e
]

module _ {A : Type 0} where
  find-set_same : (k : Text) (a : A) (d : Dict A) → find k (set k a d) ≡ some a
  find-set_same k a d = find-set k k a d ∙ rw text_eq_refl

  pub find-set_other :
      (key k : Text) (a : A) (d : Dict A) → text_eq key k ≡ false → find k (set key a d) ≡ find k d
  find-set_other key k a d h = find-set key k a d ∙ rw h

  find-drop_same : (k : Text) (d : Dict A) → find k (drop k d) ≡ none
  find-drop_same k d = find-drop k k d ∙ rw text_eq_refl

  pub find-drop_other :
      (key k : Text) (d : Dict A) → text_eq key k ≡ false → find k (drop key d) ≡ find k d
  find-drop_other key k d h = find-drop key k d ∙ rw h

-- The four ways in which publishing a staged directory ends.
abbrev Published : Site → Text → Directory → Containers × Result Failure (Unit {0}) → Type 0
Published site name new (after, result) = (result ≡ ok tt) × (find name after ≡ some new)

abbrev IsKept : Text → Containers → Containers × Result Failure (Unit {0}) → Type 0
IsKept name before (after, result) = (result ≡ err os_error) × (find name after ≡ find name before)

abbrev IsAside : Site → Text → Containers → Containers × Result Failure (Unit {0}) → Type 0
IsAside site name before (after, result) =
    (result ≡ err os_error)
    × (find name after ≡ none)
    × (find (backup_name site name) after ≡ find name before)

abbrev IsUncleaned : Text → Directory → Containers × Result Failure (Unit {0}) → Type 0
IsUncleaned name new (after, result) = (result ≡ err os_error) × (find name after ≡ some new)

abbrev pub Ends :
    Site → Text → Containers → Directory → Containers × Result Failure (Unit {0}) → Type 0
Ends site name before new end =
    Published site name new end
    ⊎ (IsKept name before end ⊎ (IsAside site name before end ⊎ IsUncleaned name new end))

replace_old-Ends :
    (site : Site) (name : Text) (old new : Directory) (before : Containers)
    → find name before ≡ some old
    → Ends site name before new (replace_old site name old new before)
unfolding replace_old
replace_old-Ends site name old new before there =
    let B = backup_name site name in
    let aside = set B old (drop name before) in
    let ne = backup-ne site name in
    elim (Bool-cases site.moved) [
      | inl moved ↦ elim (Bool-cases site.removed) [
        | inl removed ↦
            rw (moved, removed)
              (inl (
                refl,
                find-drop_other B name (set name new aside) ne ∙ find-set_same name new aside,
              ))
        | inr stale ↦ rw (moved, stale) (inr (inr (inr (refl, find-set_same name new aside))))
      ]
      | inr stuck ↦ elim (Bool-cases site.restored) [
        | inl restored ↦
            rw (stuck, restored)
              (inr (inl (refl, find-set_same name old (drop B aside) ∙ sym there)))
        | inr lost ↦
            rw (stuck, lost)
              (inr (
                inr (
                  inl (
                    refl,
                    find-set_other B name old (drop name before) ne ∙ find-drop_same name before,
                    find-set_same B old (drop name before) ∙ sym there,
                  ))))
      ]
    ]

pub publish-Ends :
    (site : Site) (name : Text) (before : Containers) (found : Option Directory) (new : Directory)
    → find name before ≡ found
    → Ends site name before new (publish site name found new before)
unfolding publish
publish-Ends site name before none new there = elim (Bool-cases site.moved) [
  | inl moved ↦ rw moved (inl (refl, find-set_same name new before))
  | inr stuck ↦ rw stuck (inr (inl (refl, refl)))
]
publish-Ends site name before (some old) new there =
    elim (Bool-cases (can_back_up site name before)) [
      | inl free ↦ rw free (replace_old-Ends site name old new before there)
      | inr blocked ↦ rw blocked (inr (inl (refl, refl)))
    ]
