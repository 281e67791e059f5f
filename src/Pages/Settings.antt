-- ===== src/Pages/Settings.antt =====
-- web/src/pages/SettingsPage.tsx: the row of a workspace and the body it is saved with, and the maintenance
-- buttons. `number_or t d` is `Number(t) || d`, and `micros t` is the amount of dollars in millionths,
-- rounded and at least 0; `to_fixed` is as in Pages.Formats.
use cron_agent_dashboard.Prelude.{
  ℕ, Bool, false, Option, none, some, List, [], ◌∷◌, ◌++◌, Text, units, trim, is_empty,
  text_or_empty, coalesce, if◌then◌else◌, decimal,
}
use cron_agent_dashboard.Api.Responses.{WorkspaceSummary}
use cron_agent_dashboard.Api.Queries.{word}
use cron_agent_dashboard.Pages.{Effect, invalidates}
use cron_agent_dashboard.Pages.Formats.{format_bytes_scaled}

pub record WorkspaceRow : Type 0 where
  pub timeout_seconds : Text
  pub auto_chain_enabled : Bool
  pub auto_chain_max_depth : Text
  pub auto_chain_daily_run_limit : Text
  pub auto_chain_daily_cost_dollars : Text
  pub auto_chain_dry_run : Bool
  pub auto_close_on_run_done : Bool
  pub per_run_worktree : Bool

abbrev is_set : Option Bool → Bool
is_set b = coalesce b false

unfoldable pub workspace_row : (ℕ → ℕ → ℕ → Text) → WorkspaceSummary → WorkspaceRow
workspace_row to_fixed w = record {
  timeout_seconds = decimal (coalesce w.default_timeout_seconds 600);
  auto_chain_enabled = is_set w.auto_chain_enabled;
  auto_chain_max_depth = decimal (coalesce w.auto_chain_max_depth 5);
  auto_chain_daily_run_limit = decimal (coalesce w.auto_chain_daily_run_limit 20);
  auto_chain_daily_cost_dollars = to_fixed (coalesce w.auto_chain_daily_cost_micros 0) 1000000 4;
  auto_chain_dry_run = is_set w.auto_chain_dry_run;
  auto_close_on_run_done = is_set w.auto_close_on_run_done;
  per_run_worktree = is_set w.per_run_worktree;
}

-- The body of `save`
pub record WorkspaceUpdate : Type 0 where
  pub name : Text
  pub description : Text
  pub working_dir : Text
  pub output_dir : Text
  pub default_timeout_seconds : ℕ
  pub auto_chain_enabled : Bool
  pub auto_chain_max_depth : ℕ
  pub auto_chain_daily_run_limit : ℕ
  pub auto_chain_daily_cost_micros : ℕ
  pub auto_chain_dry_run : Bool
  pub auto_close_on_run_done : Bool
  pub per_run_worktree : Bool

unfoldable pub save_workspace :
    (Text → ℕ → ℕ) → (Text → ℕ) → WorkspaceSummary → WorkspaceRow → WorkspaceUpdate
save_workspace number_or micros w row = record {
  name = w.name;
  description = w.description;
  working_dir = text_or_empty w.working_dir;
  output_dir = text_or_empty w.output_dir;
  default_timeout_seconds = number_or row.timeout_seconds 600;
  auto_chain_enabled = row.auto_chain_enabled;
  auto_chain_max_depth = number_or row.auto_chain_max_depth 5;
  auto_chain_daily_run_limit = number_or row.auto_chain_daily_run_limit 0;
  auto_chain_daily_cost_micros = micros row.auto_chain_daily_cost_dollars;
  auto_chain_dry_run = row.auto_chain_dry_run;
  auto_close_on_run_done = row.auto_close_on_run_done;
  per_run_worktree = row.per_run_worktree;
}

unfoldable pub workspace_saved : WorkspaceSummary → List Effect
workspace_saved w =
    invalidates (word (units "workspaces") ∷ [])
    ∷ invalidates (word (units "workspace") ∷ word w.slug ∷ [])
    ∷ []

-- The `to` of a backup, if one is given
unfoldable pub backup_target : Text → Option Text
backup_target path = if is_empty (trim path) then none else some (trim path)

unfoldable pub backup_message : (ℕ → ℕ → ℕ → Text) → Text → ℕ → Text
backup_message to_fixed path size =
    units "백업 완료: " ++ (path ++ (units " (" ++ (format_bytes_scaled to_fixed size ++ units ")")))

unfoldable pub vacuum_message : (ℕ → ℕ → ℕ → Text) → ℕ → Text
vacuum_message to_fixed reclaimed =
    units "Vacuum 완료: " ++ (format_bytes_scaled to_fixed reclaimed ++ units " 회수")

unfoldable pub cleanup_days : (Text → ℕ → ℕ) → Text → ℕ
cleanup_days number_or days = number_or days 30

unfoldable pub cleanup_message : (ℕ → ℕ → ℕ → Text) → ℕ → ℕ → Text
cleanup_message to_fixed files bytes =
    units "로그 정리 완료: "
    ++ (decimal files ++ (units "개 삭제, " ++ (format_bytes_scaled to_fixed bytes ++ units " 회수")))
