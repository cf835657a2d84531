-- ===== src/ExecutionBackend/Running/Table.antt =====
-- execution_backend.py: one `execute` and one `stop` on the table.
use etroute.Prelude.{
  ℕ, ◌≡◌, refl, ◌⊎◌, inl, inr, ◌↔◌, false, Option, none, some, List, [], ◌∷◌, ok, ◌==◌, Bool-cases,
  arith, ap, ==_iff, Returns, Returns-bind, Returns-any, Returns-ok, Returns-err, Option-cases,
}
use etroute.Python.Text.{Text, text_eq, text_eq_refl}
use etroute.Python.Dict.{find, set, drop}
use etroute.Python.Value.{ℤ, pos, negsuc}
use etroute.ExecutionBackend.Config.{ExecutionRequest}
use etroute.ExecutionBackend.Machine.{
  Machine, Launched, process, not_started, bad_argument, Ended, ended, lost, Signals,
  terminate_process,
}
use etroute.ExecutionBackend.Running.{
  Table, ExecutionResult, completed, failed, result_of, collect, stop, run_launched, run_process,
  execute_native, execute_proot, ProotBackend,
}

drop-absent : (id : Text) (table : Table) → find id table ≡ none → drop id table ≡ table
unfolding find drop
drop-absent id [] e = refl
drop-absent id ((k, g) ∷ table) e = elim (Bool-cases (text_eq k id)) [
  | inl same ↦ let found = rw (same, find) at e in cc found
  | inr other ↦ rw (other, drop, drop-absent id table (rw (other, find) at e))
]

drop-set :
    (id : Text) (h : ℕ) (table : Table) → find id table ≡ none → drop id (set id h table) ≡ table
unfolding find drop set
drop-set id h [] e = rw text_eq_refl
drop-set id h ((k, g) ∷ table) e = elim (Bool-cases (text_eq k id)) [
  | inl same ↦ let found = rw (same, find) at e in cc found
  | inr other ↦ rw (other, drop-set id h table (rw (other, find) at e), other)
]

pub find-drop : (id : Text) (table : Table) → find id (drop id table) ≡ none
unfolding find drop
find-drop id [] = refl
find-drop id ((k, g) ∷ table) = elim (Bool-cases (text_eq k id)) [
  | inl same ↦ rw same (find-drop id table)
  | inr other ↦ rw (other, find-drop id table, other)
]

-- Exit code 0 is the only one that counts as completed.
pub record IsResult (id : Text) (r : ExecutionResult) : Type 0 where
  pub identified : r.execution_id ≡ id
  pub completes : (r.state ≡ completed) ↔ (r.exit_code ≡ some (pos 0))
  pub outcome : (r.state ≡ completed) ⊎ (r.state ≡ failed)

some_pos : (n : ℕ) → ◌≡◌ {A = Option ℤ} (some (pos n)) (some (pos 0)) → n ≡ 0
some_pos n e = cc

result_of-IsResult : (id : Text) (e : Ended) → IsResult id (result_of id e)
result_of-IsResult id (ended (pos n) out errors) = elim (Bool-cases (n == 0)) [
  | inl zero_n ↦ rw zero_n (record {
    identified = refl;
    completes = (λ _. ap (λ (k : ℕ). some (pos k)) ((==_iff n 0).0 zero_n), λ _. refl);
    outcome = inl refl;
  })
  | inr other ↦ rw other (record {
    identified = refl;
    completes = (λ h. cc, λ h. absurd (nonzero n other (some_pos n h)));
    outcome = inr refl;
  })
]
  where
    nonzero : (n : ℕ) → (n == 0) ≡ false → n ≡ 0 → ⊥
    nonzero n other e = ground (arith, other, e)
result_of-IsResult id (ended (negsuc n) out errors) = record {
  identified = refl;
  completes = (λ h. cc, λ h. cc);
  outcome = inr refl;
}
result_of-IsResult id (lost message) = record {
  identified = refl;
  completes = (λ h. cc, λ h. cc);
  outcome = inr refl;
}

-- What `execute` leaves and answers, if its identifier is new to the table.
abbrev Answers : Text → Table → Table × ExecutionResult → Type 0
Answers id table (after, r) = (after ≡ table) × IsResult id r

run_launched-Answers :
    (m : Machine) (id : Text) (l : Launched) (table : Table)
    → find id table ≡ none
    → Returns (Answers id table) (run_launched m id l table)
unfolding run_launched collect
run_launched-Answers m id (process handle) table new =
    Returns-ok _ (drop-set id handle table new, result_of-IsResult id _)
run_launched-Answers m id (not_started message) table new =
    Returns-ok _ (drop-absent id table new, result_of-IsResult id (lost message))
run_launched-Answers m id bad_argument table new = Returns-err _

run_process-Answers :
    (m : Machine) (argv : List Text) (request : ExecutionRequest) (table : Table)
    → find m.new_id table ≡ none
    → Returns (Answers m.new_id table) (run_process m argv request table)
unfolding run_process
run_process-Answers m argv request table new = run_launched-Answers m m.new_id _ table new

-- If its identifier is new to the table, a native execution that nobody interrupts and that returns
-- leaves the table of running processes as it was, and its result carries the identifier and is
-- COMPLETED exactly for exit code 0 and FAILED otherwise.
pub execute_native-table :
    (m : Machine) (r : ExecutionRequest) (table after : Table) (result : ExecutionResult)
    → find m.new_id table ≡ none
    → execute_native m r table ≡ ok (after, result)
    → (after ≡ table) × IsResult m.new_id result
unfolding execute_native
execute_native-table m r table after result new h =
    let answers : Returns (Answers m.new_id table) (execute_native m r table) =
      Returns-bind _ _ Returns-any λ request _.
        Returns-bind _ _ Returns-any λ executable _. run_process-Answers m _ request table new in
    answers.at (after, result) h

-- If its identifier is new to the table, an execution under PRoot that nobody interrupts and that
-- returns leaves the table of running processes as it was, and its result carries the identifier
-- and is COMPLETED exactly for exit code 0 and FAILED otherwise.
execute_proot-table :
    (m : Machine) (b : ProotBackend) (r : ExecutionRequest) (after : Table)
    (result : ExecutionResult)
    → find m.new_id b.running ≡ none
    → execute_proot m b r ≡ ok (after, result)
    → (after ≡ b.running) × IsResult m.new_id result
unfolding execute_proot
execute_proot-table m b r after result new h =
    let answers : Returns (Answers m.new_id b.running) (execute_proot m b r) =
      Returns-bind _ _ Returns-any λ request _.
        Returns-bind _ _ Returns-any λ argv _. run_process-Answers m argv request b.running new in
    answers.at (after, result) h

pub stop-table :
    (id : Text) (signals : ℕ → Signals) (table : Table) → (stop id signals table).0 ≡ drop id table
unfolding stop
stop-table id signals table = elim (Option-cases (find id table)) [
  | inl e ↦ rw (e, stop)
  | inr (h, e) ↦ rw (e, stop)
]

stop-absent :
    (id : Text) (signals : ℕ → Signals) (table : Table)
    → find id table ≡ none
    → stop id signals table ≡ (table, ok false)
unfolding stop
stop-absent id signals table e = rw (e, stop, drop-absent id table e)

-- `stop` answers what ending the registered process does, and False for an identifier that is not
-- there. Afterwards the identifier is not there, so a second `stop` answers False and changes
-- nothing more.
pub stop_once :
    (id : Text) (signals : ℕ → Signals) (table : Table)
    → (find id table ≡ none → stop id signals table ≡ (table, ok false))
      × ((h : ℕ)
          → find id table ≡ some h
          → (stop id signals table).1 ≡ terminate_process (signals h))
      × (stop id signals (stop id signals table).0 ≡ ((stop id signals table).0, ok false))
unfolding stop
stop_once id signals table = (
  stop-absent id signals table,
  λ h e. rw (e, stop),
  stop-absent id signals (stop id signals table).0 (rw stop-table (find-drop id table)),
)
