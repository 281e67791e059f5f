-- ===== src/Panels/Queues.antt =====
-- The two ordered lists: the agents of a workspace, and the queued runs of an issue.
use mathlib.Core.List.{Perm}
use cron_agent_dashboard.Prelude.{List, filter, or_default, [], arith}
use cron_agent_dashboard.Prelude.Sort.{
  Collation, IsSorted, IsTotal, IsTotal-on, sort_by-perm, sort_by-IsSorted,
}
use cron_agent_dashboard.Api.Records.{Run, AgentActivity}
use cron_agent_dashboard.Panels.{sort_priority, pulse_items, is_queued, queued_le, queued_runs}

module _ (loc : Collation) where
  sort_priority-IsTotal : IsTotal (sort_priority loc)
  sort_priority-IsTotal = record {
    total = λ a b. ground (
      arith,
      loc.le-IsTotal.total (or_default a.latest_run_enqueued_at [])
          (or_default b.latest_run_enqueued_at []),
    );
    trans = λ a b c p q. ground (
      arith,
      loc.le-IsTotal.trans (or_default c.latest_run_enqueued_at [])
          (or_default b.latest_run_enqueued_at []) (or_default a.latest_run_enqueued_at []),
    );
  }

  -- The widget shows every agent once, by the urgency of its last run (running, queued, failed, done,
  -- others), and among equals the one enqueued last first.
  pub pulse_items-IsSorted :
      (activity : List AgentActivity)
      → Perm (pulse_items loc activity) activity
        × IsSorted (sort_priority loc) (pulse_items loc activity)
  unfolding pulse_items
  pulse_items-IsSorted activity =
      (sort_by-perm (sort_priority loc) activity, sort_by-IsSorted sort_priority-IsTotal activity)

  -- The panel shows the queued runs and no others, each once, oldest first.
  pub queued_runs-IsSorted :
      (runs : List Run)
      → Perm (queued_runs loc runs) (filter is_queued runs)
        × IsSorted (queued_le loc) (queued_runs loc runs)
  unfolding queued_runs
  queued_runs-IsSorted runs = (
    sort_by-perm (queued_le loc) (filter is_queued runs),
    sort_by-IsSorted (IsTotal-on (λ r. or_default r.enqueued_at []) loc.le-IsTotal)
        (filter is_queued runs),
  )
