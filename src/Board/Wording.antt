-- ===== src/Board/Wording.antt =====
-- web/src/pages/BoardPage.tsx: the labels, chips and questions.
use cron_agent_dashboard.Prelude.{
  Bool, Option, none, some, List, [], ◌∷◌, ◌++◌, Text, units, text_eq, trim, is_empty, find,
  if◌then◌else◌,
}
use cron_agent_dashboard.Api.Records.{
  Issue, IssueStatus, ExecutionStatus, Agent, issue_status_text, execution_status_text,
}
use cron_agent_dashboard.Api.Queries.{Filter, every, only}
use cron_agent_dashboard.Labels.{Labels, get_mapped_label}
use cron_agent_dashboard.Board.{PendingAction, set_status, cancel_execution}

abbrev status_labels : Labels
status_labels =
    (units "all", units "전체")
    ∷ (units "open", units "진행")
    ∷ (units "done", units "완료")
    ∷ (units "cancelled", units "취소")
    ∷ []

abbrev execution_labels : Labels
execution_labels =
    (units "all", units "전체")
    ∷ (units "idle", units "대기 없음")
    ∷ (units "queued", units "대기")
    ∷ (units "running", units "실행 중")
    ∷ (units "done", units "완료")
    ∷ (units "failed", units "실패")
    ∷ (units "cancelled", units "취소")
    ∷ []

pub status_label : Text → Text
unfolding get_mapped_label
status_label status = get_mapped_label status_labels status

pub execution_label : Text → Text
unfolding get_mapped_label
execution_label status = get_mapped_label execution_labels status

abbrev status_chip : Filter IssueStatus → List Text
status_chip every = []
status_chip (only s) = (units "상태: " ++ status_label (issue_status_text s)) ∷ []

abbrev execution_chip : Filter ExecutionStatus → List Text
execution_chip every = []
execution_chip (only s) = (units "실행: " ++ execution_label (execution_status_text s)) ∷ []

abbrev agent_chip : Option Agent → List Text
agent_chip none = []
agent_chip (some agent) = (units "담당: @" ++ agent.name) ∷ []

abbrev search_chip : Text → List Text
search_chip q = if is_empty (trim q) then [] else (units "검색: " ++ trim q) ∷ []

-- `ActiveFilterSummary`; without chips the page says that there is no filter
pub active_filter_chips :
    Filter IssueStatus → Filter ExecutionStatus → Text → Text → List Agent → List Text
unfolding status_label execution_label text_eq trim
active_filter_chips status execution agent_id q agents =
    status_chip status
    ++ (execution_chip execution
        ++ (agent_chip (find (λ a. text_eq a.id agent_id) agents) ++ search_chip q))

abbrev is_queued : Issue → Bool
is_queued issue = text_eq (execution_status_text issue.execution_status) (units "queued")

pub pending_title : Option PendingAction → Text
unfolding text_eq
pending_title none = units "작업 확인"
pending_title (some (cancel_execution issue)) =
    if is_queued issue then units "대기 run을 취소할까요?" else units "실행 중인 run을 취소할까요?"
pending_title (some (set_status issue IssueStatus.open_issue)) = units "이슈를 다시 열까요?"
pending_title (some (set_status issue IssueStatus.done)) = units "이슈를 완료 처리할까요?"
pending_title (some (set_status issue IssueStatus.cancelled)) = units "이슈를 취소할까요?"

abbrev target : Issue → Text
target issue = units "“" ++ (issue.identifier ++ (units " · " ++ (issue.title ++ units "”")))

pub pending_description : Option PendingAction → Option Text
pending_description none = none
pending_description (some (cancel_execution issue)) =
    some (target issue ++ units "의 active run을 취소합니다. 이슈 자체는 open 상태로 유지됩니다.")
pending_description (some (set_status issue IssueStatus.done)) =
    some (target issue ++ units "을 완료 상태로 전환합니다. 서버는 queued/running run이 있으면 요청을 차단합니다.")
pending_description (some (set_status issue IssueStatus.cancelled)) =
    some (target issue ++ units "을 취소 상태로 닫습니다. queued run은 함께 취소됩니다.")
pending_description (some (set_status issue IssueStatus.open_issue)) =
    some (target issue ++ units "을 open 상태로 되돌립니다.")

pub pending_confirm_label : Option PendingAction → Text
pending_confirm_label none = units "확인"
pending_confirm_label (some (cancel_execution issue)) = units "실행 취소"
pending_confirm_label (some (set_status issue IssueStatus.open_issue)) = units "다시 열기"
pending_confirm_label (some (set_status issue IssueStatus.done)) = units "완료 처리"
pending_confirm_label (some (set_status issue IssueStatus.cancelled)) = units "이슈 취소"

pub status_toast : IssueStatus → Text
status_toast IssueStatus.open_issue = units "이슈를 다시 열었습니다."
status_toast IssueStatus.done = units "이슈를 완료 처리했습니다."
status_toast IssueStatus.cancelled = units "이슈를 취소했습니다."
