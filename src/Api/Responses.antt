-- ===== src/Api/Responses.antt =====
-- web/src/api/queries.ts, the response types that only pages read. An optional field is an `Option`; a
-- text union that the client never checks stays a text. `J` stands for the JSON values of `details`.
use cron_agent_dashboard.Prelude.{ℕ, Bool, Option, Text, List}
use cron_agent_dashboard.Api.Records.{Issue, Run}

pub data ActivationMode : Type 0 where
  always trigger manual : ActivationMode

pub data DeliveryStatus : Type 0 where
  pending delivered failed : DeliveryStatus

pub record WorkspaceSummary : Type 0 where
  pub id : Text
  pub slug : Text
  pub name : Text
  pub description : Text
  pub identifier_prefix : Text
  pub working_dir : Option Text
  pub output_dir : Option Text
  pub default_timeout_seconds : Option ℕ
  pub auto_chain_enabled : Option Bool
  pub auto_chain_max_depth : Option ℕ
  pub auto_chain_daily_run_limit : Option ℕ
  pub auto_chain_daily_cost_micros : Option ℕ
  pub auto_chain_dry_run : Option Bool
  pub auto_close_on_run_done : Option Bool
  pub per_run_worktree : Option Bool
  pub agent_count : Option ℕ
  pub open_issue_count : Option ℕ

pub record AgentInstructionVersion : Type 0 where
  pub id : Text
  pub agent_id : Text
  pub version : ℕ
  pub instructions : Text
  pub created_at : Text

pub record Skill : Type 0 where
  pub id : Text
  pub workspace_id : Text
  pub name : Text
  pub description : Text
  pub triggers : List Text
  pub content : Text
  pub source_type : Text
  pub source_url : Option Text
  pub source_ref : Option Text
  pub local_path : Option Text
  pub content_hash : Text
  pub trust_level : Text
  pub enabled : Bool
  pub created_at : Text
  pub updated_at : Text

pub record AgentSkill : Type 0 where
  pub agent_id : Text
  pub skill_id : Text
  pub activation_mode : ActivationMode
  pub priority : ℕ
  pub enabled : Bool
  pub created_at : Text
  pub updated_at : Text
  pub skill : Option Skill

pub record Comment : Type 0 where
  pub id : Text
  pub author_type : Text
  pub author_agent_name : Option Text
  pub run_id : Option Text
  pub content : Text
  pub truncated : Option Bool
  pub log_url : Option Text
  pub created_at : Text

pub record RunEvent (J : Type 0) : Type 0 where
  pub id : Text
  pub run_id : Text
  pub issue_id : Text
  pub seq : ℕ
  pub event_type : Text
  pub severity : Text
  pub message : Option Text
  pub details : Option (List (Text × J))
  pub created_at : Text

pub record AutopilotRule : Type 0 where
  pub id : Text
  pub name : Text
  pub cron_expr : Text
  pub issue_title_template : Text
  pub issue_body_template : Text
  pub assignee_agent_id : Option Text
  pub assignee_agent_name : Option Text
  pub enabled : Bool
  pub last_run_at : Option Text
  pub next_run_at : Option Text
  pub snooze_until : Option Text
  pub last_error : Option Text
  pub consecutive_failures : ℕ
  pub last_triggered_issue_id : Option Text

pub record AutopilotTriggerResult : Type 0 where
  pub ok : Bool
  pub rule : AutopilotRule
  pub issue : Option Issue
  pub run : Option Run
  pub error : Option Text

pub record AutopilotTriggerResponse : Type 0 where
  pub trigger_result : AutopilotTriggerResult
  pub rule : AutopilotRule
  pub issue : Option Issue
  pub run : Option Run

pub record HealthResponse : Type 0 where
  pub status : Text
  pub version : Option Text
  pub uptime_seconds : Option ℕ
  pub db_ok : Option Bool
  pub available_runtimes : Option (List Text)

pub record UsageSummary : Type 0 where
  pub since : Text
  pub run_count : ℕ
  pub input_tokens : ℕ
  pub output_tokens : ℕ
  pub total_tokens : ℕ
  pub total_cost_micros : ℕ
  pub measured_run_count : ℕ

pub record Attachment : Type 0 where
  pub id : Text
  pub issue_id : Text
  pub comment_id : Option Text
  pub uploaded_by : Text
  pub filename : Text
  pub content_type : Text
  pub size_bytes : ℕ
  pub sha256 : Text
  pub download_url : Text
  pub created_at : Text

pub record Webhook : Type 0 where
  pub id : Text
  pub workspace_id : Text
  pub url : Text
  pub has_secret : Bool
  pub events : List Text
  pub enabled : Bool
  pub mask_pii : Bool
  pub failed_delivery_count : ℕ
  pub created_at : Text
  pub updated_at : Text

pub record WebhookDelivery : Type 0 where
  pub id : Text
  pub webhook_id : Text
  pub event_type : Text
  pub payload_json : Option Text
  pub status : DeliveryStatus
  pub status_code : ℕ
  pub response_body : Option Text
  pub error_message : Option Text
  pub attempt : ℕ
  pub next_attempt_at : Text
  pub delivered_at : Option Text
  pub created_at : Text

pub record MigrationFailure : Type 0 where
  pub id : ℕ
  pub version : ℕ
  pub name : Text
  pub error : Text
  pub failed_at : Text

pub record Maintenance : Type 0 where
  pub auto_backup : Bool
  pub auto_backup_keep : ℕ
  pub auto_cleanup_log_days : ℕ
  pub interval_seconds : ℕ
  pub worktree_gc_after_seconds : Option ℕ
  pub last_log_cleanup_at : Option Text
  pub last_log_cleanup_files : Option Text
  pub last_log_cleanup_bytes : Option Text
  pub worktree_bytes : Option Text
  pub worktree_dir_count : Option Text
  pub worktree_pruned_last_pass : Option Text
  pub worktree_measured_at : Option Text

pub record RunLifecycle : Type 0 where
  pub heartbeat_interval_seconds : ℕ
  pub stale_after_seconds : ℕ
  pub stale_scan_interval_seconds : ℕ

pub record AvailableRuntime : Type 0 where
  pub name : Text
  pub version : Text
  pub path : Text
  pub supported : Option Bool
  pub warning : Option Text

pub record SettingsResponse : Type 0 where
  pub version : Text
  pub data_dir : Text
  pub worker_pool_size : ℕ
  pub auth_mode : Text
  pub timezone : Text
  pub usage_7d : Option UsageSummary
  pub migration_fail_count : Option ℕ
  pub migration_failures : Option (List MigrationFailure)
  pub maintenance : Option Maintenance
  pub run_lifecycle : Option RunLifecycle
  pub available_runtimes : List AvailableRuntime
