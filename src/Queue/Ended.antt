-- ===== src/Queue/Ended.antt =====
-- What the statements leave alone: the runs that have ended.
use cron_agent_dashboard.Prelude.{
  any, is_empty, false, some, ◌≤◌, ◌≡◌, subst, inl, inr, Bool, true, not, ◌&&◌, List, [], ◌∷◌, map,
  arith, Text, Bool-cases, Option-cases,
}
use cron_agent_dashboard.Queue.{
  FinishRunInput, recover_row, recover_run_stdout_path, has_stdout, has_id, trim_space_start,
  trim_space_end, Tables, next_run, RunRow, RunStatus, is_queued, is_running, count, start,
  finish_row, end_row, reschedule_row, claim_next_run, complete_run, cancel_run,
  fail_infrastructure_run, reschedule_run,
}
use cron_agent_dashboard.Queue.Steps.{
  Step, enqueues, claims, completes, cancels, fails, reschedules,
}

abbrev pub is_ended : RunRow → Bool
is_ended r = not (is_queued r) && not (is_running r)

ended_started : (id : Text) (r : RunRow) → is_ended r ≡ true → start id r ≡ r
ended_started id r h = ground (arith, h)

ended_finished :
    (id : Text) (input : FinishRunInput) (at : Text) (r : RunRow)
    → is_ended r ≡ true
    → finish_row id input at r ≡ r
ended_finished id input at r h = ground (arith, h)

ended_again :
    (id : Text) (status : RunStatus) (at : Text) (r : RunRow)
    → is_ended r ≡ true
    → end_row id status at r ≡ r
ended_again id status at r h = ground (arith, h)

ended_rescheduled :
    (id at stdout_path : Text) (r : RunRow)
    → is_ended r ≡ true
    → reschedule_row id at stdout_path r ≡ r
ended_rescheduled id at stdout_path r h = ground (arith, h)

-- The rows of a kind that have ended
abbrev pub ended_of : (RunRow → Bool) → RunRow → Bool
ended_of p r = is_ended r && p r

count-map-ended :
    (p : RunRow → Bool) (f : RunRow → RunRow)
    → ((r : RunRow) → is_ended r ≡ true → f r ≡ r)
    → (runs : List RunRow) → count (ended_of p) runs ≤ count (ended_of p) (map f runs)
count-map-ended p f h [] = omega arith
count-map-ended p f h (r ∷ rs) = elim (Bool-cases (is_ended r)) [
  | inl e ↦ rw (h r e) (ground (arith, count-map-ended p f h rs))
  | inr e ↦ ground (arith, e, count-map-ended p f h rs)
]

-- Giving a run a path for its output, where it has none, leaves it of this kind.
abbrev pub IsKept : (RunRow → Bool) → Type 0
IsKept p =
    (r : RunRow) (path : Text)
    → has_stdout r ≡ false
    → p r ≡ true
    → p (record r { stdout_path = some path }) ≡ true

recovered_row :
    (p : RunRow → Bool) (id path : Text) (r : RunRow)
    → IsKept p
    → ended_of p r ≡ true
    → ended_of p (recover_row id path r) ≡ true
recovered_row p id path r k h = elim (Bool-cases (has_id id r && not (has_stdout r))) [
  | inl e ↦ rw e (ground (arith, h, k r path (ground (arith, e)) (ground (arith, h))))
  | inr e ↦ rw e h
]

count-map-recovered :
    (p : RunRow → Bool) (id path : Text)
    → IsKept p
    → (runs : List RunRow)
    → count (ended_of p) runs ≤ count (ended_of p) (map (recover_row id path) runs)
count-map-recovered p id path k [] = omega arith
count-map-recovered p id path k (r ∷ rs) =
    let rest = count-map-recovered p id path k rs in
    elim (Bool-cases (ended_of p r)) [
      | inl e ↦ rw (e, recovered_row p id path r k e) (omega (arith, rest))
      | inr e ↦ rw e (ground (arith, rest))
    ]

recover_run_stdout_path-keeps_ended :
    (p : RunRow → Bool) (id stdout_path : Text) (runs : List RunRow)
    → IsKept p
    → count (ended_of p) runs ≤ count (ended_of p) (recover_run_stdout_path id stdout_path runs)
unfolding recover_run_stdout_path
recover_run_stdout_path-keeps_ended p id stdout_path runs k =
    let path = trim_space_end (trim_space_start stdout_path) in
    elim (Bool-cases (is_empty path)) [
      | inl e ↦ rw e (omega arith)
      | inr e ↦ rw e (count-map-recovered p id path k runs)
    ]

complete_run-keeps_ended :
    (p : RunRow → Bool) (id : Text) (input : FinishRunInput) (at : Text) (runs : List RunRow)
    → IsKept p
    → count (ended_of p) runs ≤ count (ended_of p) (complete_run id input at runs)
unfolding complete_run
complete_run-keeps_ended p id input at runs k =
    elim (Bool-cases (any (λ r. has_id id r && is_running r) runs)) [
      | inl e ↦ rw e (count-map-ended p _ (ended_finished id input at) runs)
      | inr e ↦ rw e (recover_run_stdout_path-keeps_ended p id input.stdout_path runs k)
    ]

-- Let a kind of runs be kept when a run without a path for its output gets one. Whatever a
-- statement does, there are as many runs of this kind that have ended as before, or more: of the
-- modelled columns of an ended run none is changed but `stdout_path`, and that only where it is
-- null or empty.
pub Step-keeps_ended :
    {t : Tables} {before after : List RunRow} (p : RunRow → Bool)
    → ((r : RunRow) (path : Text)
        → has_stdout r ≡ false
        → p r ≡ true
        → p (record r { stdout_path = some path }) ≡ true)
    → Step t before after
    → count (ended_of p) before ≤ count (ended_of p) after
unfolding cancel_run fail_infrastructure_run reschedule_run claim_next_run
Step-keeps_ended p k (enqueues r runs q f) = ground arith
Step-keeps_ended {t = t} p k (claims now runs) = elim (Option-cases (next_run t now runs)) [
  | inl e ↦ rw (e, claim_next_run) (omega arith)
  | inr (c, e) ↦ rw (e, claim_next_run) (count-map-ended p (start c.id) (ended_started c.id) runs)
]
Step-keeps_ended p k (completes id input at runs) = complete_run-keeps_ended p id input at runs k
Step-keeps_ended p k (cancels id at runs) =
    count-map-ended p _ (ended_again id RunStatus.cancelled at) runs
Step-keeps_ended p k (fails id at runs) =
    count-map-ended p _ (ended_again id RunStatus.failed at) runs
Step-keeps_ended p k (reschedules retry_on kind at path r runs after e) =
    let same : map (reschedule_row r.id at path) runs ≡ after = ground arith in
    subst (λ x. count (ended_of p) runs ≤ count (ended_of p) x) same
      (count-map-ended p (reschedule_row r.id at path) (ended_rescheduled r.id at path) runs)
