-- ===== src/ExecutionBackend/Running/Reach.antt =====
-- execution_backend.py: `execute` and `stop` from several threads on one table of running
-- processes.
use etroute.Prelude.{
  ℕ, ◌≡◌, refl, true, false, List, [], ◌∷◌, All, if◌then◌else◌, Bool-cases, inl, inr, arith,
}
use etroute.Python.Text.{Text, text_eq, text_eq_refl, text_eq→eq}
use etroute.Python.Dict.{set, drop}
use etroute.Python.Value.{contains}
use etroute.ExecutionBackend.Machine.{Signals, Ended}
use etroute.ExecutionBackend.Running.Table.{stop-table}
use etroute.ExecutionBackend.Running.{Table, collect, stop}

-- The executions between Popen and the end of `communicate`, and the table.
pub record Session : Type 0 where
  pub waiting : List Text
  pub running : Table

unfoldable pub leave : Text → List Text → List Text
unfolding text_eq
leave id [] = []
leave id (k ∷ ks) = let rest = leave id ks in if text_eq k id then rest else k ∷ rest

unfoldable pub begin : Text → ℕ → Session → Session
begin id handle s = record { waiting = id ∷ s.waiting; running = set id handle s.running }

unfoldable pub end : Text → Ended → Session → Session
end id e s = record { waiting = leave id s.waiting; running = (collect id e s.running).0 }

unfoldable pub interrupt : Text → (ℕ → Signals) → Session → Session
interrupt id signals s = record { waiting = s.waiting; running = (stop id signals s.running).0 }

-- One thread starts a process, another returns from `communicate`, another calls `stop`.
pub data Step (s : Session) : Session → Type 0 where
  begins : (id : Text) (handle : ℕ) → Step s (begin id handle s)
  ends : (id : Text) (e : Ended) → Step s (end id e s)
  stops : (id : Text) (signals : ℕ → Signals) → Step s (interrupt id signals s)

pub data Reach : Session → Type 0 where
  idle : Reach (record { waiting = []; running = [] })
  step : {s t : Session} → Reach s → Step s t → Reach t

-- Each process of the table belongs to an execution that still waits for it.
abbrev IsOwned : Session → Type 0
IsOwned s = All (λ e. contains s.waiting e.0 ≡ true) s.running

weaken :
    (id : Text) (ks : List Text) (table : Table)
    → All (λ e. contains ks e.0 ≡ true) table
    → All (λ e. contains (id ∷ ks) e.0 ≡ true) table
unfolding contains
weaken id ks [] h = tt
weaken id ks ((k, g) ∷ table) h = (ground (arith, h.0), weaken id ks table h.1)

set-IsOwned :
    (id : Text) (handle : ℕ) (ks : List Text) (table : Table)
    → contains ks id ≡ true
    → All (λ e. contains ks e.0 ≡ true) table
    → All (λ e. contains ks e.0 ≡ true) (set id handle table)
unfolding set
set-IsOwned id handle ks [] c h = (c, tt)
set-IsOwned id handle ks ((k, g) ∷ table) c h = elim (Bool-cases (text_eq k id)) [
  | inl same ↦ rw (same, set) h
  | inr other ↦ rw (other, set) (h.0, set-IsOwned id handle ks table c h.1)
]

not_head :
    (j id k : Text) (ks : List Text)
    → text_eq j id ≡ true
    → text_eq k id ≡ false
    → contains (j ∷ ks) k ≡ true
    → contains ks k ≡ true
unfolding contains
not_head j id k ks same ne c = elim (Bool-cases (text_eq j k)) [
  | inl e ↦ cc (text_eq→eq j id same, text_eq→eq j k e, text_eq_refl id)
  | inr e ↦ ground (arith, c, e)
]

contains-leave :
    (id k : Text) (ks : List Text)
    → text_eq k id ≡ false
    → contains ks k ≡ true
    → contains (leave id ks) k ≡ true
unfolding leave contains
contains-leave id k [] ne c = c
contains-leave id k (j ∷ ks) ne c = elim (Bool-cases (text_eq j id)) [
  | inl same ↦ rw same (contains-leave id k ks ne (not_head j id k ks same ne c))
  | inr other ↦ rw other (ground (arith, contains-leave id k ks ne))
]

drop-IsOwned :
    (id : Text) (ks : List Text) (table : Table)
    → All (λ e. contains ks e.0 ≡ true) table
    → All (λ e. contains ks e.0 ≡ true) (drop id table)
unfolding drop
drop-IsOwned id ks [] h = tt
drop-IsOwned id ks ((k, g) ∷ table) h = elim (Bool-cases (text_eq k id)) [
  | inl same ↦ rw (same, drop) (drop-IsOwned id ks table h.1)
  | inr other ↦ rw (other, drop) (h.0, drop-IsOwned id ks table h.1)
]

leave-IsOwned :
    (id : Text) (ks : List Text) (table : Table)
    → All (λ e. contains ks e.0 ≡ true) table
    → All (λ e. contains (leave id ks) e.0 ≡ true) (drop id table)
unfolding drop
leave-IsOwned id ks [] h = tt
leave-IsOwned id ks ((k, g) ∷ table) h = elim (Bool-cases (text_eq k id)) [
  | inl same ↦ rw (same, drop) (leave-IsOwned id ks table h.1)
  | inr other ↦ rw (other, drop) (contains-leave id k ks other h.0, leave-IsOwned id ks table h.1)
]

contains_here : (ks : List Text) (k : Text) → contains (k ∷ ks) k ≡ true
unfolding contains
contains_here ks k = rw text_eq_refl

Step-IsOwned : {s t : Session} → Step s t → IsOwned s → IsOwned t
unfolding begin end interrupt collect
Step-IsOwned {s} (begins id handle) h =
    set-IsOwned id handle (id ∷ s.waiting) s.running (contains_here s.waiting id)
      (weaken id s.waiting s.running h)
Step-IsOwned {s} (ends id e) h = leave-IsOwned id s.waiting s.running h
Step-IsOwned {s} (stops id signals) h = rw stop-table (drop-IsOwned id s.waiting s.running h)

-- However executions and stops interleave, each process of the table belongs to an execution that
-- still waits for it.
Reach-IsOwned : {s : Session} → Reach s → IsOwned s
Reach-IsOwned idle = tt
Reach-IsOwned (step r one) = Step-IsOwned one (Reach-IsOwned r)

no_keys : (table : Table) → All (λ e. contains [] e.0 ≡ true) table → table ≡ []
unfolding contains
no_keys [] h = refl
no_keys (e ∷ table) h = let none_there = h.0 in cc none_there

-- However executions and stops interleave, the table of running processes is empty once no
-- execution waits for its process.
pub quiet-empty : (s : Session) → Reach s → s.waiting ≡ [] → s.running ≡ []
quiet-empty s r quiet = no_keys s.running (rw quiet at (Reach-IsOwned r))
