-- ===== src/Board/Changes.antt =====
-- web/src/pages/BoardPage.tsx: the sample issue, the tables of options, and what comes of a request of the
-- board.
use cron_agent_dashboard.Prelude.{Option, none, some, List, [], ◌∷◌, ◌++◌, Text, units, coalesce}
use cron_agent_dashboard.Api.Records.{IssueStatus}
use cron_agent_dashboard.Api.Queries.{word, part}
use cron_agent_dashboard.Api.Session.{Store}
use cron_agent_dashboard.Toasts.{ToastTone}
use cron_agent_dashboard.Pages.{Effect, invalidates, notifies}
use cron_agent_dashboard.Board.{PendingAction, set_param}
use cron_agent_dashboard.Board.Wording.{status_toast}

pub record Prefill : Type 0 where
  pub title : Text
  pub body : Text

abbrev pub sample_dev_team_issue : Prefill
sample_dev_team_issue = record {
  title = units "Settings 페이지 다크모드 토글 추가";
  body =
      units "## Acceptance criteria"
      ++ (0x0a ∷ units "- settings 페이지에 다크/라이트 토글 버튼"
          ++ (0x0a ∷ units "- localStorage 'theme' 키로 영속화"
              ++ (0x0a ∷ units "- 페이지 로드 시 저장된 값 복원" ++ 0x0a ∷ units "- 키보드 단축키 `?`로 토글 가능")));
}

-- A column: its status, its label and its hint
abbrev pub statuses : List (IssueStatus × (Text × Text))
statuses =
    (IssueStatus.open_issue, (units "진행", units "Open"))
    ∷ (IssueStatus.done, (units "완료", units "Done"))
    ∷ (IssueStatus.cancelled, (units "취소", units "Cancelled"))
    ∷ []

abbrev pub status_filter_options : List (Text × Text)
status_filter_options =
    (units "all", units "전체")
    ∷ (units "open", units "진행")
    ∷ (units "done", units "완료")
    ∷ (units "cancelled", units "취소됨")
    ∷ []

abbrev pub execution_filter_options : List (Text × Text)
execution_filter_options =
    (units "all", units "실행 전체")
    ∷ (units "idle", units "대기 없음")
    ∷ (units "queued", units "대기")
    ∷ (units "running", units "실행 중")
    ∷ (units "done", units "완료")
    ∷ (units "failed", units "실패")
    ∷ (units "cancelled", units "취소")
    ∷ []

-- The message of an `Error`, or none where something else was thrown
abbrev pub board_error_message : Option Text → Text
board_error_message thrown = coalesce thrown (units "요청 처리 중 오류가 발생했습니다.")

abbrev pub success_notice : PendingAction → Effect
success_notice (PendingAction.set_status issue status) =
    notifies ToastTone.success (status_toast status) (some issue.identifier)
success_notice (PendingAction.cancel_execution issue) =
    notifies ToastTone.success (units "실행 취소를 요청했습니다.") (some issue.identifier)

abbrev pub failure_title : PendingAction → Text
failure_title (PendingAction.set_status issue status) = units "상태 변경 실패"
failure_title (PendingAction.cancel_execution issue) = units "실행 취소 실패"

-- The request of an action has succeeded, or something was thrown: the effects, and the question that is left
unfoldable pub settle_action :
    Option Text → PendingAction → Option (Option Text) → List Effect × Option PendingAction
settle_action slug action none =
    (invalidates (word (units "issues") ∷ part slug ∷ []) ∷ success_notice action ∷ [], none)
settle_action slug action (some thrown) =
    (notifies ToastTone.error (failure_title action) (some (board_error_message thrown)) ∷ [], none)

abbrev pub set_search_query : Text → Store → Store
set_search_query value = set_param (units "q") value

pub data ViewMode : Type 0 where
  board list : ViewMode

unfoldable pub set_view : ViewMode → Store → Store
set_view board search = set_param (units "view") [] search
set_view list search = set_param (units "view") (units "list") search
