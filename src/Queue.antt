-- ===== src/Queue.antt =====
-- internal/store/runs.go and cancellation.go: the queue of runs in the `run` table, by its statements.
-- Of a row the columns are kept that the statements read or that say where the run stands; the tables
-- `issue` and `workspace` give each issue its workspace and each workspace its policy. A transaction is
-- one step. Texts are compared by their units, as the database does.
pub mod AutoChain
pub mod Claims
pub mod Eligible
pub mod Ended
pub mod Order
pub mod Retries
pub mod Steps
mod Tests
use cron_agent_dashboard.Prelude.{
  ℕ, zero, suc, Bool, true, false, not, ◌&&◌, ◌||◌, Option, none, some, List, [], ◌∷◌, ◌++◌, map,
  is_space, ◌==◌, Text, text_eq, is_empty, any, units, ltb, leb, filter, head?, if◌then◌else◌,
}
use cron_agent_dashboard.Prelude.Sort.{unit_le, sort_by}

pub data RunStatus : Type 0 where
  queued running done failed cancelled : RunStatus

pub record RunRow : Type 0 where
  pub id : Text
  pub issue_id : Text
  pub agent_id : Text
  pub status : RunStatus
  pub chain_id : Text
  pub parent_run_id : Option Text
  pub chain_depth : ℕ
  pub enqueued_at : Text
  pub next_retry_at : Option Text
  pub finished_at : Option Text
  pub stdout_path : Option Text
  pub total_cost_micros : ℕ
  pub attempt : ℕ
  pub max_attempts : ℕ

pub record Tables : Type 0 where
  pub workspace_of : Text → Text
  pub per_run_worktree : Text → Bool

abbrev pub is_queued : RunRow → Bool
is_queued r = elim r.status [ RunStatus.queued ↦ true | _ ↦ false ]

abbrev pub is_running : RunRow → Bool
is_running r = elim r.status [ RunStatus.running ↦ true | _ ↦ false ]

abbrev pub has_id : Text → RunRow → Bool
has_id id r = text_eq r.id id

-- `next_retry_at IS NULL OR next_retry_at='' OR next_retry_at <= ?`
abbrev pub is_due : Text → Option Text → Bool
is_due now none = true
is_due now (some at) = is_empty at || unit_le at now

-- The two `NOT EXISTS` of the claim
abbrev pub issue_free : List RunRow → RunRow → Bool
issue_free runs r = not (any (λ x. is_running x && text_eq x.issue_id r.issue_id) runs)

abbrev pub workspace_free : Tables → List RunRow → RunRow → Bool
workspace_free t runs r =
    t.per_run_worktree (t.workspace_of r.issue_id)
    || not (
        any
          (λ x.
            is_running x
            && text_eq (t.workspace_of x.issue_id) (t.workspace_of r.issue_id)
            && not (t.per_run_worktree (t.workspace_of x.issue_id)))
          runs)

abbrev pub eligible : Tables → Text → List RunRow → RunRow → Bool
eligible t now runs r =
    is_queued r && is_due now r.next_retry_at && issue_free runs r && workspace_free t runs r

-- `ORDER BY enqueued_at ASC, id ASC`
abbrev pub claimed_first : RunRow → RunRow → Bool
claimed_first a b =
    if text_eq a.enqueued_at b.enqueued_at
    then unit_le a.id b.id
    else unit_le a.enqueued_at b.enqueued_at

unfoldable pub next_run : Tables → Text → List RunRow → Option RunRow
next_run t now runs = head? (sort_by claimed_first (filter (eligible t now runs) runs))

-- `UPDATE run SET status='running' WHERE id=? AND status='queued'`
abbrev pub start : Text → RunRow → RunRow
start id r = if has_id id r && is_queued r then record r { status = RunStatus.running } else r

-- `ClaimNextRun`: the rows after it, and the run that was claimed
unfoldable pub claim_next_run : Tables → Text → List RunRow → List RunRow × Option RunRow
unfolding next_run
claim_next_run t now runs = elim (next_run t now runs) [
  | none ↦ (runs, none)
  | some r ↦ (map (start r.id) runs, some r)
]

-- What a finished run reports; it succeeded if it completed with exit code 0.
pub record FinishRunInput : Type 0 where
  pub succeeded : Bool
  pub stdout_path : Text
  pub total_cost_micros : ℕ

-- `status := "done"`, or `"failed"`
abbrev pub finish_status : Bool → RunStatus
finish_status succeeded = if succeeded then RunStatus.done else RunStatus.failed

abbrev pub null_if_empty : Text → Option Text
null_if_empty v = if is_empty v then none else some v

-- `updateRunTerminalTx`: only a running run is finished.
abbrev pub finish_row : Text → FinishRunInput → Text → RunRow → RunRow
finish_row id input at r =
    if has_id id r && is_running r
    then record r {
      status = finish_status input.succeeded;
      finished_at = some at;
      stdout_path = null_if_empty input.stdout_path;
      total_cost_micros = input.total_cost_micros;
    }
    else r

-- `strings.TrimSpace`
abbrev go_space : ℕ → Bool
go_space c = (is_space c && not (c == 0xfeff)) || (c == 0x85)

unfoldable pub trim_space_start : Text → Text
unfolding is_space
trim_space_start [] = []
trim_space_start (c ∷ s) = if go_space c then trim_space_start s else c ∷ s

abbrev cons_unless_space : ℕ → Text → Text
cons_unless_space c [] = if go_space c then [] else c ∷ []
cons_unless_space c (d ∷ r) = c ∷ d ∷ r

unfoldable pub trim_space_end : Text → Text
unfolding is_space
trim_space_end [] = []
trim_space_end (c ∷ s) = cons_unless_space c (trim_space_end s)

-- `stdout_path IS NULL OR stdout_path=''`
abbrev pub has_stdout : RunRow → Bool
has_stdout r = elim r.stdout_path [ none ↦ false | some path ↦ not (is_empty path) ]

abbrev pub recover_row : Text → Text → RunRow → RunRow
recover_row id path r =
    if has_id id r && not (has_stdout r) then record r { stdout_path = some path } else r

unfoldable pub recover_run_stdout_path : Text → Text → List RunRow → List RunRow
unfolding trim_space_start trim_space_end
recover_run_stdout_path id stdout_path runs =
    let path = trim_space_end (trim_space_start stdout_path) in
    if is_empty path then runs else map (recover_row id path) runs

-- `CompleteRunWithReason`: a run that is not running keeps its state, and gets the path if it has none.
unfoldable pub complete_run : Text → FinishRunInput → Text → List RunRow → List RunRow
unfolding recover_run_stdout_path
complete_run id input at runs =
    if any (λ r. has_id id r && is_running r) runs
    then map (finish_row id input at) runs
    else recover_run_stdout_path id input.stdout_path runs

-- `WHERE id=? AND status IN ('queued','running')`
abbrev pub end_row : Text → RunStatus → Text → RunRow → RunRow
end_row id status at r =
    if has_id id r && (is_queued r || is_running r)
    then record r { status = status; finished_at = some at }
    else r

unfoldable pub cancel_run : Text → Text → List RunRow → List RunRow
cancel_run id at = map (end_row id RunStatus.cancelled at)

unfoldable pub fail_infrastructure_run : Text → Text → List RunRow → List RunRow
fail_infrastructure_run id at = map (end_row id RunStatus.failed at)

-- The kinds of failure that are repeated where an agent's policy names none
abbrev pub is_retryable_failure_kind : Text → Bool
is_retryable_failure_kind kind =
    text_eq kind (units "timeout") || text_eq kind (units "executor_error")

-- `policy.RetryOn == nil` is `none`.
unfoldable pub should_retry_run : Option (List Text) → Text → ℕ → ℕ → Bool
should_retry_run retry_on kind attempt max_attempts =
    if leb max_attempts attempt || leb max_attempts 1 then false else elim retry_on [
      | none ↦ is_retryable_failure_kind kind
      | some kinds ↦ any (λ k. text_eq k kind) kinds
    ]

-- `WHERE id=? AND status='running' AND attempt<max_attempts`
abbrev pub reschedule_row : Text → Text → Text → RunRow → RunRow
reschedule_row id at stdout_path r =
    if has_id id r && is_running r && ltb r.attempt r.max_attempts
    then record r {
      status = RunStatus.queued;
      next_retry_at = null_if_empty at;
      attempt = suc r.attempt;
      stdout_path = null_if_empty stdout_path;
    }
    else r

-- `RescheduleRunForRetry` on the run that it has read: `none` is `ErrState`.
unfoldable pub reschedule_run :
    Option (List Text) → Text → Text → Text → RunRow → List RunRow → Option (List RunRow)
unfolding should_retry_run
reschedule_run retry_on kind at stdout_path r runs =
    if is_running r && should_retry_run retry_on kind r.attempt r.max_attempts
    then some (map (reschedule_row r.id at stdout_path) runs)
    else none

-- how many rows a condition holds of
abbrev pub count : (RunRow → Bool) → List RunRow → ℕ
count p [] = zero
count p (x ∷ xs) = if p x then suc (count p xs) else count p xs
