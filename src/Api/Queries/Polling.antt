-- ===== src/Api/Queries/Polling.antt =====
-- What is repeated.
use cron_agent_dashboard.Prelude.{◌≡◌, ◌↔◌, ◌⊎◌, Option, some, Text, text_eq, arith}
use cron_agent_dashboard.Api.Records.{Issue, ExecutionStatus, execution_status_text}
use cron_agent_dashboard.Api.Queries.{live_interval, workspace_issue_query}

abbrev pub IsLive : ExecutionStatus → Type 0
IsLive status = (status ≡ ExecutionStatus.queued) ⊎ (status ≡ ExecutionStatus.running)

-- The query of an issue is repeated exactly while the issue last read is queued or running.
pub workspace_issue_query_polls :
    (issue : Issue) (slug identifier : Option Text)
    → ((workspace_issue_query (some issue) slug identifier).refetch_interval ≡ some 3000)
      ↔ IsLive issue.execution_status
unfolding workspace_issue_query live_interval text_eq
workspace_issue_query_polls issue slug identifier = polls issue.execution_status
  where
    polls :
        (status : ExecutionStatus)
        → (live_interval (some (execution_status_text status)) ≡ some 3000) ↔ IsLive status
    polls status = ground arith
