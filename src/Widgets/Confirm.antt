-- ===== src/Widgets/Confirm.antt =====
-- web/src/pages/IssueDetailPage.tsx: the questions before an action on an issue; and
-- web/src/pages/SettingsPage.tsx: a duration of the settings.
use cron_agent_dashboard.Prelude.{
  ℕ, ◌/◌, ◌%◌, ◌&&◌, Option, none, some, ◌++◌, Text, units, truthy, text_or_empty, if◌then◌else◌,
  leb, ◌==◌, coalesce, decimal,
}

pub data ConfirmAction : Type 0 where
  rerun cancel_run mark_done cancel_issue reopen : ConfirmAction

pub confirm_title : Option ConfirmAction → Text
confirm_title none = units "작업 확인"
confirm_title (some rerun) = units "이슈를 재실행할까요?"
confirm_title (some cancel_run) = units "현재 실행을 취소할까요?"
confirm_title (some mark_done) = units "이슈를 완료 처리할까요?"
confirm_title (some cancel_issue) = units "이슈를 취소할까요?"
confirm_title (some reopen) = units "이슈를 다시 열까요?"

abbrev confirm_target : Option Text → Text
confirm_target title =
    if truthy title then units "“" ++ (text_or_empty title ++ units "”") else units "선택한 이슈"

pub confirm_description : Option ConfirmAction → Option Text → Option Text
confirm_description none title = none
confirm_description (some rerun) title = some (confirm_target title ++ units "의 새 run을 큐에 등록합니다.")
confirm_description (some cancel_run) title =
    some (confirm_target title ++ units "의 queued/running run에 취소 신호를 보냅니다.")
confirm_description (some mark_done) title =
    some (confirm_target title ++ units "을 완료 상태로 전환합니다. active run이 있으면 서버가 차단합니다.")
confirm_description (some cancel_issue) title =
    some (confirm_target title ++ units "을 취소 상태로 닫습니다. queued run은 함께 취소됩니다.")
confirm_description (some reopen) title = some (confirm_target title ++ units "을 open 상태로 되돌립니다.")

pub confirm_label : Option ConfirmAction → Text
confirm_label none = units "확인"
confirm_label (some rerun) = units "재실행"
confirm_label (some cancel_run) = units "실행 취소"
confirm_label (some mark_done) = units "완료 처리"
confirm_label (some cancel_issue) = units "이슈 취소"
confirm_label (some reopen) = units "다시 열기"

-- `formatDurationSeconds`; a value is a number of seconds that is not negative.
pub format_duration_seconds : Option ℕ → Text
unfolding decimal
format_duration_seconds value =
    let seconds = coalesce value 0 in
    let days = seconds / 86400 in
    let hours = seconds / 3600 in
    if seconds == 0
    then units "OFF"
    else if leb 1 days && (seconds % 86400 == 0)
    then decimal days ++ units "일"
    else if leb 1 hours && (seconds % 3600 == 0)
    then decimal hours ++ units "시간"
    else decimal seconds ++ units "초"
