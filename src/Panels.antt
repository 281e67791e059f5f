-- ===== src/Panels.antt =====
-- The small panels around an issue and a workspace: what IssueSummaryRail.tsx, TeamPulseWidget.tsx,
-- MentionQueuePanel.tsx, LiveRunCard.tsx and ChainSummaryPanel.tsx of web/src/components show.
-- `Date.parse` and the clock are arguments.
pub mod Rail
pub mod Queues
pub mod Guards
pub mod Invalidation
mod Tests
use cron_agent_dashboard.Prelude.{
  ℕ, ◌+◌, ◌-◌, ◌*◌, ◌/◌, ◌%◌, Bool, true, false, not, ◌&&◌, ◌||◌, Option, none, some, List, [], ◌∷◌,
  ◌++◌, Text, units, text_eq, filter, find, coalesce, or_text, or_default, truthy, text_or_empty,
  if◌then◌else◌, ltb, leb, ◌==◌, decimal, get_last?,
}
use mathlib.Core.List.{reverse}
use cron_agent_dashboard.Prelude.Int.{ℤ, ◌-ℤ◌, pos, negsuc}
use cron_agent_dashboard.Prelude.Sort.{Collation, sort_by}
use cron_agent_dashboard.Api.Records.{Run, AgentActivity, Issue, IssueStatus}
use cron_agent_dashboard.Chains.{ChainSummary}
use cron_agent_dashboard.Api.Queries.{KeyPart, word, part}

pub record Usage : Type 0 where
  pub input_tokens : ℕ
  pub output_tokens : ℕ
  pub total_tokens : ℕ
  pub total_cost_micros : ℕ
  pub measured_runs : ℕ

abbrev pub no_usage : Usage
no_usage = record {
  input_tokens = 0;
  output_tokens = 0;
  total_tokens = 0;
  total_cost_micros = 0;
  measured_runs = 0;
}

-- `runHasUsage`, and the test in the reduction
abbrev pub run_has_usage : Run → Bool
run_has_usage run =
    ltb 0 (coalesce run.input_tokens 0)
    || ltb 0 (coalesce run.output_tokens 0)
    || ltb 0 (coalesce run.total_cost_micros 0)

-- One round of the reduction
abbrev pub add_usage : Usage → Run → Usage
add_usage acc run =
    let input = coalesce run.input_tokens 0 in
    let output = coalesce run.output_tokens 0 in
    record {
      input_tokens = acc.input_tokens + input;
      output_tokens = acc.output_tokens + output;
      total_tokens = acc.total_tokens + (input + output);
      total_cost_micros = acc.total_cost_micros + coalesce run.total_cost_micros 0;
      measured_runs = if run_has_usage run then acc.measured_runs + 1 else acc.measured_runs;
    }

unfoldable pub usage_from : Usage → List Run → Usage
usage_from acc [] = acc
usage_from acc (run ∷ runs) = usage_from (add_usage acc run) runs

unfoldable pub summarize_run_usage : List Run → Usage
unfolding usage_from
summarize_run_usage runs = usage_from no_usage runs

-- `[...runs].reverse().find(...)`
unfoldable pub latest_problem_run : List Run → Option Run
unfolding text_eq
latest_problem_run runs =
    find (λ r. text_eq r.status (units "failed") || text_eq r.status (units "cancelled"))
      (reverse runs)

-- `order` of `sortPriority`
unfoldable pub order : Option Text → ℕ
unfolding text_eq
order none = 4
order (some s) =
    if text_eq s (units "running")
    then 0
    else if text_eq s (units "queued")
    then 1
    else if text_eq s (units "failed")
    then 2
    else if text_eq s (units "done")
    then 3
    else 4

-- `sortPriority(a, b) <= 0`
abbrev pub sort_priority : Collation → AgentActivity → AgentActivity → Bool
sort_priority loc a b =
    if ltb (order a.latest_run_status) (order b.latest_run_status)
    then true
    else if ltb (order b.latest_run_status) (order a.latest_run_status)
    then false
    else loc.le (or_default b.latest_run_enqueued_at []) (or_default a.latest_run_enqueued_at [])

unfoldable pub pulse_items : Collation → List AgentActivity → List AgentActivity
pulse_items loc activity = sort_by (sort_priority loc) activity

abbrev pub is_queued : Run → Bool
is_queued run = text_eq run.status (units "queued")

abbrev pub queued_le : Collation → Run → Run → Bool
queued_le loc a b = loc.le (or_default a.enqueued_at []) (or_default b.enqueued_at [])

unfoldable pub queued_runs : Collation → List Run → List Run
queued_runs loc runs = sort_by (queued_le loc) (filter is_queued runs)

pub data GuardStatus : Type 0 where
  ok warn over : GuardStatus

-- `classifyGuard` with the default `warnAt` of 3/4, for figures that a double holds exactly
unfoldable pub classify_guard : ℕ → Option ℕ → GuardStatus
classify_guard used none = ok
classify_guard used (some limit) =
    if limit == 0
    then ok
    else if leb limit used
    then over
    else if leb (3 * limit) (4 * used)
    then warn
    else ok

abbrev pub is_over : GuardStatus → Bool
is_over g = elim g [ over ↦ true | _ ↦ false ]

abbrev pub is_warn : GuardStatus → Bool
is_warn g = elim g [ warn ↦ true | _ ↦ false ]

-- `data-guard` of a row
unfoldable pub row_guard : ChainSummary → Option ℕ → Option ℕ → GuardStatus
unfolding classify_guard
row_guard summary depth_limit cost_limit_micros =
    let depth_guard = classify_guard summary.max_chain_depth depth_limit in
    let cost_guard = classify_guard summary.total_cost_micros cost_limit_micros in
    if is_over depth_guard || is_over cost_guard
    then over
    else if is_warn depth_guard || is_warn cost_guard
    then warn
    else ok

abbrev pub last_status_is : Text → ChainSummary → Bool
last_status_is status summary = elim summary.last_status [
  | none ↦ false
  | some s ↦ text_eq s status
]

unfoldable pub is_cancellable : ChainSummary → Bool
unfolding text_eq
is_cancellable summary =
    last_status_is (units "queued") summary || last_status_is (units "running") summary

unfoldable pub is_retryable : ChainSummary → Bool
unfolding text_eq
is_retryable summary = last_status_is (units "failed") summary

-- `Math.max(0, Math.round((end - start) / 1000))`, none where a time is no date
abbrev rounded : ℤ → ℕ
rounded (pos n) = (n + 500) / 1000
rounded (negsuc n) = 0

abbrev seconds_of : Option ℤ → Option ℤ → Option ℕ
seconds_of (some start) (some end) = some (rounded (end -ℤ start))
seconds_of _ _ = none

-- `secondsBetween`: up to `to`, or up to now
unfoldable pub seconds_between : (Text → Option ℤ) → ℤ → Option Text → Option Text → Option ℕ
unfolding ◌-ℤ◌
seconds_between time now none to = none
seconds_between time now (some []) to = none
seconds_between time now (some (c ∷ s)) none = seconds_of (time (c ∷ s)) (some now)
seconds_between time now (some (c ∷ s)) (some []) = seconds_of (time (c ∷ s)) (some now)
seconds_between time now (some (c ∷ s)) (some (d ∷ t)) = seconds_of (time (c ∷ s)) (time (d ∷ t))

unfoldable pub format_elapsed : Option ℕ → Text
unfolding decimal
format_elapsed none = units "—"
format_elapsed (some s) =
    if ltb s 60
    then decimal s ++ units "s"
    else decimal (s / 60) ++ (units "m " ++ (decimal (s % 60) ++ units "s"))

pub data Tone : Type 0 where
  healthy stale unknown : Tone

abbrev health_of : Option ℕ → Text × Tone
health_of none = (units "—", unknown)
health_of (some ago) =
    if leb ago 30
    then (decimal ago ++ units "초 전 (healthy)", healthy)
    else if leb ago 120
    then (decimal ago ++ units "초 전", healthy)
    else (decimal (ago / 60) ++ (units "분 " ++ (decimal (ago % 60) ++ units "초 전 (stale)")), stale)

unfoldable pub heartbeat_health : (Text → Option ℤ) → ℤ → Option Text → Text × Tone
unfolding seconds_between decimal
heartbeat_health time now heartbeat_at =
    if not (truthy heartbeat_at)
    then (units "—", unknown)
    else health_of (seconds_between time now heartbeat_at none)

-- `invalidateAfterAction` of a row: the keys that it invalidates once its chain is cancelled or retried
unfoldable pub invalidate_after_action : Option Text → Option Text → List (List KeyPart)
invalidate_after_action issue_id slug =
    (if truthy issue_id
      then (word (units "issue") ∷ part issue_id ∷ [])
        ∷ (word (units "runs") ∷ part issue_id ∷ [])
        ∷ (word (units "comments") ∷ part issue_id ∷ [])
        ∷ []
      else [])
    ++ (if truthy slug
        then (word (units "workspace-runs") ∷ part slug ∷ [])
          ∷ (word (units "workspace-runs-feed") ∷ part slug ∷ [])
          ∷ []
        else [])
