-- ===== src/Api/Samples.antt =====
-- Records for the tests.
use cron_agent_dashboard.Prelude.{Text, none, some, [], ◌∷◌, List, units}
use cron_agent_dashboard.Api.Records.{Run, Issue, IssueStatus, ExecutionStatus}

-- a run by its id, its status, its time and its chain
abbrev pub sample_run : Text → Text → Text → Text → Run
sample_run id status time chain = record {
  id = id;
  issue_id = none;
  agent_id = some (units "a1");
  agent_name = none;
  status = status;
  trigger_type = [];
  trigger_comment_id = none;
  trigger_content_snapshot = none;
  parent_run_id = none;
  chain_id = some chain;
  chain_depth = some 2;
  agent_instructions_version = none;
  log_url = none;
  error_message = none;
  exit_code = none;
  stdout_size_bytes = none;
  input_tokens = some 10;
  output_tokens = none;
  total_cost_micros = none;
  model_resolved = none;
  attempt = none;
  max_attempts = none;
  next_retry_at = none;
  enqueued_at = some time;
  claimed_at = none;
  claimed_by = none;
  started_at = none;
  heartbeat_at = none;
  finished_at = none;
  terminal_reason = none;
  failure_kind = none;
  cancel_reason = none;
}

abbrev pub sample_runs : List Run
sample_runs =
    sample_run (units "r1") (units "failed") (units "2024-01-02") (units "c1")
    ∷ sample_run (units "r2") (units "queued") (units "2024-01-01") (units "c2")
    ∷ sample_run (units "r3") (units "done") (units "2024-01-03") (units "c1")
    ∷ []

abbrev pub sample_issue : Issue
sample_issue = record {
  id = units "i1";
  workspace_id = none;
  identifier = [];
  title = [];
  body = [];
  status = IssueStatus.open_issue;
  execution_status = ExecutionStatus.done;
  assignee_agent_id = none;
  assignee_agent_name = none;
  parent_issue_id = none;
  created_by = none;
  autopilot_rule_id = none;
  last_run_agent_id = none;
  last_run_agent_name = none;
  comment_count = 0;
  created_at = none;
  updated_at = none;
}
