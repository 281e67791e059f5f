-- ===== src/Queue/Steps.antt =====
-- What any sequence of the statements on runs keeps.
use cron_agent_dashboard.Queue.{
  FinishRunInput, recover_row, recover_run_stdout_path, trim_space_start, trim_space_end, next_run,
  has_id, RunStatus, count, end_row, finish_row, is_running, reschedule_row, start, Tables, RunRow,
  complete_run, cancel_run, fail_infrastructure_run, reschedule_run, claim_next_run,
}
use cron_agent_dashboard.Prelude.{
  is_empty, ◌&&◌, text_eq_iff, inr, text_eq, Bool-cases, inl, subst, false, some, sym, Option,
  Option-cases, [], any, ◌∷◌, ◌≤◌, map, arith, true, Bool, List, Text, ◌≡◌,
}
use cron_agent_dashboard.Queue.Claims.{
  count_none, HasUniqueIds, HasOneRunning, running_at, claim_next_run-HasOneRunning,
}

-- A change of a row that leaves its id, and lets no new condition hold of it
count-map :
    (p q : RunRow → Bool) (f : RunRow → RunRow)
    → ((r : RunRow) → q (f r) ≡ true → p r ≡ true)
    → (runs : List RunRow) → count q (map f runs) ≤ count p runs
count-map p q f h [] = omega arith
count-map p q f h (r ∷ rs) = ground (arith, count-map p q f h rs, h r)

-- It keeps the id and the issue of a row and starts none.
abbrev pub StartsNone : (RunRow → RunRow) → Type 0
StartsNone f =
    (r : RunRow)
    → ((f r).id ≡ r.id)
      × ((f r).issue_id ≡ r.issue_id)
      × (is_running (f r) ≡ true → is_running r ≡ true)

map-HasUniqueIds :
    (f : RunRow → RunRow) (runs : List RunRow)
    → ((r : RunRow) → (f r).id ≡ r.id)
    → HasUniqueIds runs
    → HasUniqueIds (map f runs)
map-HasUniqueIds f runs same u =
    λ id. omega (arith, u id, count-map (has_id id) (has_id id) f (λ r e. rw (sym (same r)) e) runs)

map-HasOneRunning :
    (t : Tables) (f : RunRow → RunRow) (runs : List RunRow)
    → StartsNone f
    → HasOneRunning t runs
    → HasOneRunning t (map f runs)
map-HasOneRunning t f runs h v = record {
  one_on_issue = λ k. omega (
    arith,
    v.one_on_issue k,
    count-map (running_at (λ r. r.issue_id) k) (running_at (λ r. r.issue_id) k) f
        (λ r e. ground (arith, h r)) runs,
  );
  one_in_workspace = λ k. ground (
    arith,
    v.one_in_workspace k,
    count-map (running_at (λ r. t.workspace_of r.issue_id) k)
        (running_at (λ r. t.workspace_of r.issue_id) k) f (λ r e. ground (arith, h r)) runs,
  );
}

start_id : (id : Text) (r : RunRow) → (start id r).id ≡ r.id
start_id id r = ground arith

finish_row-StartsNone :
    (id : Text) (input : FinishRunInput) (at : Text) → StartsNone (finish_row id input at)
finish_row-StartsNone id input at r = (ground arith, ground arith, λ e. ground arith)

cancel_row-StartsNone : (id at : Text) → StartsNone (end_row id RunStatus.cancelled at)
cancel_row-StartsNone id at r = (ground arith, ground arith, λ e. ground arith)

fail_row-StartsNone : (id at : Text) → StartsNone (end_row id RunStatus.failed at)
fail_row-StartsNone id at r = (ground arith, ground arith, λ e. ground arith)

recover_row-StartsNone : (id path : Text) → StartsNone (recover_row id path)
recover_row-StartsNone id path r = (ground arith, ground arith, λ e. ground arith)

reschedule_row-StartsNone :
    (id at stdout_path : Text) → StartsNone (reschedule_row id at stdout_path)
reschedule_row-StartsNone id at stdout_path r = (ground arith, ground arith, λ e. ground arith)

-- One statement of the store; a new run is queued under an id that is not taken.
pub data Step (t : Tables) : List RunRow → List RunRow → Type 0 where
  enqueues :
      (r : RunRow) (runs : List RunRow)
      → r.status ≡ RunStatus.queued
      → any (has_id r.id) runs ≡ false
      → Step t runs (r ∷ runs)
  claims : (now : Text) (runs : List RunRow) → Step t runs (claim_next_run t now runs).0
  completes :
      (id : Text) (input : FinishRunInput) (at : Text) (runs : List RunRow)
      → Step t runs (complete_run id input at runs)
  cancels : (id at : Text) (runs : List RunRow) → Step t runs (cancel_run id at runs)
  fails : (id at : Text) (runs : List RunRow) → Step t runs (fail_infrastructure_run id at runs)
  reschedules :
      (retry_on : Option (List Text)) (kind at stdout_path : Text) (r : RunRow)
      (runs after : List RunRow)
      → reschedule_run retry_on kind at stdout_path r runs ≡ some after
      → Step t runs after

-- The tables that a store that began empty may have
pub data Reachable (t : Tables) : List RunRow → Type 0 where
  began : Reachable t []
  by_step :
      {before after : List RunRow} → Reachable t before → Step t before after → Reachable t after

pub record IsValid (t : Tables) (runs : List RunRow) : Type 0 where
  pub unique_ids : HasUniqueIds runs
  pub one_running : HasOneRunning t runs

map-IsValid :
    (t : Tables) (f : RunRow → RunRow) (runs : List RunRow)
    → StartsNone f
    → IsValid t runs
    → IsValid t (map f runs)
map-IsValid t f runs h v = record {
  unique_ids = map-HasUniqueIds f runs (λ r. (h r).0) v.unique_ids;
  one_running = map-HasOneRunning t f runs h v.one_running;
}

claim_next_run-HasUniqueIds :
    (t : Tables) (now : Text) (runs : List RunRow)
    → HasUniqueIds runs
    → HasUniqueIds (claim_next_run t now runs).0
unfolding claim_next_run
claim_next_run-HasUniqueIds t now runs u = elim (Option-cases (next_run t now runs)) [
  | inl e ↦ rw (e, claim_next_run) u
  | inr (c, e) ↦ rw (e, claim_next_run) (map-HasUniqueIds (start c.id) runs (start_id c.id) u)
]

enqueue-IsValid :
    (t : Tables) (r : RunRow) (runs : List RunRow)
    → r.status ≡ RunStatus.queued
    → any (has_id r.id) runs ≡ false
    → IsValid t runs
    → IsValid t (r ∷ runs)
enqueue-IsValid t r runs q fresh v =
    let idle : is_running r ≡ false = ground (arith, q) in
    record {
      unique_ids = λ id. elim (Bool-cases (text_eq r.id id)) [
        | inl e ↦
            let same : r.id ≡ id = (text_eq_iff r.id id).0 e in
            ground (
              arith,
              count_none (has_id id) runs (subst (λ x. any (has_id x) runs ≡ false) same fresh),
            )
        | inr n ↦ ground (arith, v.unique_ids id)
      ];
      one_running = record {
        one_on_issue = λ k. ground (arith, v.one_running.one_on_issue k);
        one_in_workspace = λ k. ground (arith, v.one_running.one_in_workspace k);
      };
    }

reschedule_run-IsValid :
    (t : Tables) (retry_on : Option (List Text)) (kind at stdout_path : Text) (r : RunRow)
    (runs after : List RunRow)
    → reschedule_run retry_on kind at stdout_path r runs ≡ some after
    → IsValid t runs
    → IsValid t after
unfolding reschedule_run
reschedule_run-IsValid t retry_on kind at stdout_path r runs after e v =
    let same : map (reschedule_row r.id at stdout_path) runs ≡ after = ground arith in
    subst (IsValid t) same (
      map-IsValid t (reschedule_row r.id at stdout_path) runs
        (reschedule_row-StartsNone r.id at stdout_path) v)

recover_run_stdout_path-IsValid :
    (t : Tables) (id stdout_path : Text) (runs : List RunRow)
    → IsValid t runs
    → IsValid t (recover_run_stdout_path id stdout_path runs)
unfolding recover_run_stdout_path
recover_run_stdout_path-IsValid t id stdout_path runs v =
    let path = trim_space_end (trim_space_start stdout_path) in
    elim (Bool-cases (is_empty path)) [
      | inl e ↦ rw e v
      | inr e ↦ rw e (map-IsValid t (recover_row id path) runs (recover_row-StartsNone id path) v)
    ]

complete_run-IsValid :
    (t : Tables) (id : Text) (input : FinishRunInput) (at : Text) (runs : List RunRow)
    → IsValid t runs
    → IsValid t (complete_run id input at runs)
unfolding complete_run
complete_run-IsValid t id input at runs v =
    elim (Bool-cases (any (λ r. has_id id r && is_running r) runs)) [
      | inl e ↦
          rw e (map-IsValid t (finish_row id input at) runs (finish_row-StartsNone id input at) v)
      | inr e ↦ rw e (recover_run_stdout_path-IsValid t id input.stdout_path runs v)
    ]

Step-IsValid :
    {t : Tables} {before after : List RunRow}
    → Step t before after
    → IsValid t before
    → IsValid t after
unfolding cancel_run fail_infrastructure_run
Step-IsValid {t = t} (enqueues r runs q f) v = enqueue-IsValid t r runs q f v
Step-IsValid {t = t} (claims now runs) v = record {
  unique_ids = claim_next_run-HasUniqueIds t now runs v.unique_ids;
  one_running = claim_next_run-HasOneRunning t now runs v.unique_ids v.one_running;
}
Step-IsValid {t = t} (completes id b at runs) v = complete_run-IsValid t id b at runs v
Step-IsValid {t = t} (cancels id at runs) v = map-IsValid t _ runs (cancel_row-StartsNone id at) v
Step-IsValid {t = t} (fails id at runs) v = map-IsValid t _ runs (fail_row-StartsNone id at) v
Step-IsValid {t = t} (reschedules retry_on kind at stdout_path r runs after e) v =
    reschedule_run-IsValid t retry_on kind at stdout_path r runs after e v

-- While the tables `issue` and `workspace` stay as they are: whatever the order in which runs are
-- queued under new ids, claimed, completed, cancelled, failed and rescheduled: no two rows have one
-- id, at most one run is running on each issue, and at most one in each workspace that does not
-- give each run its own working directory.
pub Reachable-IsValid : {t : Tables} {runs : List RunRow} → Reachable t runs → IsValid t runs
Reachable-IsValid began = record {
  unique_ids = λ id. omega arith;
  one_running = record {
    one_on_issue = λ k. omega arith;
    one_in_workspace = λ k. inr (omega arith);
  };
}
Reachable-IsValid (by_step r s) = Step-IsValid s (Reachable-IsValid r)
