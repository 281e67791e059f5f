-- ===== src/Review.antt =====
-- web/src/components/ReviewBanner.tsx: when the banner is shown, what it counts, and which later run
-- made up for a failed one. `a > b` on texts compares code units.
pub mod Recovery
mod Tests
use cron_agent_dashboard.Prelude.{
  ℕ, zero, suc, ◌+◌, Bool, true, false, not, ◌&&◌, ◌||◌, Option, none, some, List, [], ◌∷◌, Text,
  units, text_eq, filter, find, length, coalesce, or_text, text_or_empty, or_default, is_some,
  if◌then◌else◌, ◌==◌,
}
use mathlib.Core.List.{reverse}
use cron_agent_dashboard.Prelude.Sort.{Collation, sort_by, unit_le}
use cron_agent_dashboard.Api.Records.{Run, Issue, IssueStatus, ExecutionStatus}

abbrev pub has_status : Text → Run → Bool
has_status status run = text_eq run.status status

abbrev pub is_done : Run → Bool
is_done = has_status (units "done")

abbrev pub is_failed : Run → Bool
is_failed = has_status (units "failed")

abbrev pub is_finished : Run → Bool
is_finished run = is_done run || is_failed run || has_status (units "cancelled") run

-- `a === b`, of texts that may be undefined
unfoldable pub same_text : Option Text → Option Text → Bool
same_text none none = true
same_text none (some t) = false
same_text (some s) none = false
same_text (some s) (some t) = text_eq s t

-- `r.enqueued_at || r.started_at || ''`
abbrev pub time_of : Run → Text
time_of run = or_default (or_text run.enqueued_at run.started_at) []

-- The test of `findRecovery`: a later run of the same agent that succeeded
unfoldable pub recovers : Run → Run → Bool
recovers failed_run run =
    same_text run.agent_id failed_run.agent_id
    && is_done run
    && not (unit_le (time_of run) (time_of failed_run))

unfoldable pub find_recovery : Run → List Run → Option Run
unfolding recovers same_text
find_recovery failed_run all = find (recovers failed_run) all

-- `sorted.findIndex((r) => r.id === id) + 1`: 0 if there is none
unfoldable pub position_of : Text → List Run → ℕ
position_of id [] = 0
position_of id (r ∷ rs) =
    let later = position_of id rs in
    if text_eq r.id id then 1 else if later == 0 then 0 else suc later

abbrev pub enqueued_le : Collation → Run → Run → Bool
enqueued_le loc a b = loc.le (or_default a.enqueued_at []) (or_default b.enqueued_at [])

unfoldable pub stage_index_of : Collation → Run → List Run → ℕ
unfolding position_of
stage_index_of loc run all = position_of run.id (sort_by (enqueued_le loc) all)

pub record Banner : Type 0 where
  pub last_agent : Option Text
  pub stages : ℕ
  pub total_done : ℕ
  pub total_failed : ℕ
  pub recovered_count : ℕ

abbrev agent_of : Option Run → Option Text
agent_of none = none
agent_of (some run) = run.agent_name

abbrev is_open : IssueStatus → Bool
is_open IssueStatus.open_issue = true
is_open _ = false

abbrev execution_done : ExecutionStatus → Bool
execution_done ExecutionStatus.done = true
execution_done _ = false

-- Nothing unless the issue is open, its execution done, and a run has finished
unfoldable pub review_banner : Option Issue → List Run → Option Banner
unfolding find_recovery
review_banner none runs = none
review_banner (some issue) runs =
    if not (is_open issue.status)
    then none
    else if not (execution_done issue.execution_status)
    then none
    else if length runs == 0
    then none
    else if length (filter is_finished runs) == 0
    then none
    else let failed_runs = filter is_failed runs in
      some (record {
        last_agent = agent_of (find is_done (reverse runs));
        stages = length runs;
        total_done = length (filter is_done runs);
        total_failed = length failed_runs;
        recovered_count = length (filter (λ r. is_some (find_recovery r runs)) failed_runs);
      })
