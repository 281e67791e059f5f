-- ===== src/Api/Records.antt =====
-- web/src/api/queries.ts, the response types. An optional field, or one that may be null, is an
-- `Option`; a text union that the client never checks (`RunStatus | string`) stays a text.
use cron_agent_dashboard.Prelude.{ℕ, Bool, Option, Text, units}
use cron_agent_dashboard.Prelude.Int.{ℤ}

pub data IssueStatus : Type 0 where
  open_issue done cancelled : IssueStatus

pub data ExecutionStatus : Type 0 where
  idle queued running done failed cancelled : ExecutionStatus

abbrev pub issue_status_text : IssueStatus → Text
issue_status_text IssueStatus.open_issue = units "open"
issue_status_text IssueStatus.done = units "done"
issue_status_text IssueStatus.cancelled = units "cancelled"

abbrev pub execution_status_text : ExecutionStatus → Text
execution_status_text ExecutionStatus.idle = units "idle"
execution_status_text ExecutionStatus.queued = units "queued"
execution_status_text ExecutionStatus.running = units "running"
execution_status_text ExecutionStatus.done = units "done"
execution_status_text ExecutionStatus.failed = units "failed"
execution_status_text ExecutionStatus.cancelled = units "cancelled"

pub record Agent : Type 0 where
  pub id : Text
  pub name : Text
  pub runtime : Text
  pub model : Option Text
  pub instructions : Text
  pub instructions_version : Option ℕ
  pub summary : Option Text
  pub tags : Option Text
  pub is_main : Bool
  pub timeout_seconds_override : Option ℕ
  pub retry_policy_json : Option Text

pub record Issue : Type 0 where
  pub id : Text
  pub workspace_id : Option Text
  pub identifier : Text
  pub title : Text
  pub body : Text
  pub status : IssueStatus
  pub execution_status : ExecutionStatus
  pub assignee_agent_id : Option Text
  pub assignee_agent_name : Option Text
  pub parent_issue_id : Option Text
  pub created_by : Option Text
  pub autopilot_rule_id : Option Text
  pub last_run_agent_id : Option Text
  pub last_run_agent_name : Option Text
  pub comment_count : ℕ
  pub created_at : Option Text
  pub updated_at : Option Text

pub record Run : Type 0 where
  pub id : Text
  pub issue_id : Option Text
  pub agent_id : Option Text
  pub agent_name : Option Text
  pub status : Text
  pub trigger_type : Text
  pub trigger_comment_id : Option Text
  pub trigger_content_snapshot : Option Text
  pub parent_run_id : Option Text
  pub chain_id : Option Text
  pub chain_depth : Option ℕ
  pub agent_instructions_version : Option ℕ
  pub log_url : Option Text
  pub error_message : Option Text
  pub exit_code : Option ℤ
  pub stdout_size_bytes : Option ℕ
  pub input_tokens : Option ℕ
  pub output_tokens : Option ℕ
  pub total_cost_micros : Option ℕ
  pub model_resolved : Option Text
  pub attempt : Option ℕ
  pub max_attempts : Option ℕ
  pub next_retry_at : Option Text
  pub enqueued_at : Option Text
  pub claimed_at : Option Text
  pub claimed_by : Option Text
  pub started_at : Option Text
  pub heartbeat_at : Option Text
  pub finished_at : Option Text
  pub terminal_reason : Option Text
  pub failure_kind : Option Text
  pub cancel_reason : Option Text

pub record AgentActivity : Type 0 where
  pub agent_id : Text
  pub agent_name : Text
  pub runtime : Text
  pub is_main : Bool
  pub latest_run_id : Option Text
  pub latest_run_status : Option Text
  pub latest_run_finished_at : Option Text
  pub latest_run_enqueued_at : Option Text
  pub latest_issue_id : Option Text
  pub latest_issue_identifier : Option Text
