-- ===== src/Pages/Home.antt =====
-- web/src/pages/HomePage.tsx: the figures and lines of the overview; web/src/components/AuthTokenPanel.tsx: when
-- it asks for a token, and its two buttons.
use cron_agent_dashboard.Prelude.{
  ℕ, zero, suc, Bool, true, false, Option, none, some, List, [], ◌∷◌, ◌++◌, Text, units, coalesce,
  filter, take, length, if◌then◌else◌, ◌==◌, decimal, sum_by,
}
use cron_agent_dashboard.Api.Records.{Issue, ExecutionStatus}
use cron_agent_dashboard.Api.Responses.{WorkspaceSummary}
use cron_agent_dashboard.Api.Session.{Window, set_token, clear_token}

abbrev pub is_active : Issue → Bool
is_active issue = elim issue.execution_status [
  | ExecutionStatus.queued ↦ true
  | ExecutionStatus.running ↦ true
  | _ ↦ false
]

unfoldable pub total_open_issues : List WorkspaceSummary → ℕ
total_open_issues = sum_by (λ w. coalesce w.open_issue_count 0)

unfoldable pub active_issue_count : Option (List Issue) → ℕ
active_issue_count issues = length (filter is_active (coalesce issues []))

unfoldable pub recent_issues : Bool → Option (List Issue) → List Issue
recent_issues expanded issues = if expanded then coalesce issues [] else take 5 (coalesce issues [])

pub data QueryState : Type 0 where
  loading failed loaded : QueryState

unfoldable pub server_state : QueryState → Text
server_state loading = units "syncing"
server_state failed = units "attention"
server_state loaded = units "online"

unfoldable pub server_label : QueryState → Text
server_label loading = units "상태 확인 중"
server_label failed = units "연결 확인 필요"
server_label loaded = units "Server online"

pub record Surface : Type 0 where
  pub label : Text
  pub command : Text
  pub meta : Text

-- `runtimeList.join(', ')`
abbrev pub join_runtimes : List Text → Text
join_runtimes [] = []
join_runtimes (x ∷ []) = x
join_runtimes (x ∷ y ∷ xs) = x ++ (units ", " ++ join_runtimes (y ∷ xs))

abbrev pub workspace_surface : Option WorkspaceSummary → Surface
workspace_surface none = record {
  label = units "workspace";
  command = units "cron-agent workspace create";
  meta = units "보드 생성을 시작하세요";
}
workspace_surface (some w) = record {
  label = units "workspace";
  command = units "cron-agent workspace use " ++ w.slug;
  meta = decimal (coalesce w.open_issue_count 0) ++ units " open issues";
}

abbrev pub runtime_surface : List Text → Surface
runtime_surface [] = record {
  label = units "runtime";
  command = units "runtime probe --pending";
  meta = units "PATH 탐지 대기";
}
runtime_surface (r ∷ rs) = record {
  label = units "runtime";
  command = units "runtime probe --found " ++ join_runtimes (r ∷ rs);
  meta = decimal (length (r ∷ rs)) ++ units " runtimes available";
}

abbrev pub autopilot_surface : ℕ → Surface
autopilot_surface zero = record {
  label = units "autopilot";
  command = units "agent runs queue --idle";
  meta = units "현재 실행 대기 없음";
}
autopilot_surface (suc n) = record {
  label = units "autopilot";
  command = units "agent runs watch --active " ++ decimal (suc n);
  meta = units "queued/running activity";
}

unfoldable pub command_surfaces : Option WorkspaceSummary → List Text → ℕ → List Surface
command_surfaces workspace runtimes active =
    workspace_surface workspace ∷ runtime_surface runtimes ∷ autopilot_surface active ∷ []

-- What was thrown: an `ApiError` with its status, or anything else
pub data PanelError : Type 0 where
  api_status : ℕ → PanelError
  other_error : PanelError

unfoldable pub is_unauthorized_error : PanelError → Bool
is_unauthorized_error (api_status status) = status == 401
is_unauthorized_error other_error = false

-- The panel shows where no error is given, or an unauthorized one.
unfoldable pub auth_panel_visible : Option PanelError → Bool
unfolding is_unauthorized_error
auth_panel_visible none = true
auth_panel_visible (some error) = is_unauthorized_error error

pub record AuthPanel : Type 0 where
  pub token : Text
  pub session_only : Bool

-- Both buttons read every query again.
unfoldable pub save_token : AuthPanel → Option Window → AuthPanel × Option Window
save_token p w = (p, set_token p.token p.session_only w)

unfoldable pub remove_token : AuthPanel → Option Window → AuthPanel × Option Window
remove_token p w = (record { token = []; session_only = false }, clear_token w)
