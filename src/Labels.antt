-- ===== src/Labels.antt =====
-- web/src/lib/runLabels.ts: the tables of labels. A value that no table has is shown as it is; a
-- table of the source is an object literal, of which only its own entries are modelled.
use cron_agent_dashboard.Prelude.{
  Option, none, some, List, [], ◌∷◌, Text, units, text_eq, if◌then◌else◌, coalesce,
}

abbrev pub Labels : Type 0
Labels = List (Text × Text)

unfoldable pub label_of : Labels → Text → Option Text
label_of [] value = none
label_of ((k, label) ∷ labels) value = if text_eq k value then some label else label_of labels value

-- `labels[value] ?? value`
unfoldable pub get_mapped_label : Labels → Text → Text
unfolding label_of
get_mapped_label labels value = coalesce (label_of labels value) value

abbrev pub trigger_labels : Labels
trigger_labels =
    (units "issue_created", units "이슈 생성")
    ∷ (units "rerun", units "재실행")
    ∷ (units "mention", units "멘션")
    ∷ (units "autopilot", units "오토파일럿")
    ∷ []

abbrev pub terminal_reason_labels : Labels
terminal_reason_labels =
    (units "completed", units "정상 종료")
    ∷ (units "exit_nonzero", units "비정상 종료")
    ∷ (units "timeout", units "시간 초과")
    ∷ (units "executor_error", units "실행기 오류")
    ∷ (units "worker_panic", units "워커 패닉")
    ∷ (units "claim_preparation_failed", units "실행 준비 실패")
    ∷ (units "unknown_failure", units "알 수 없는 실패")
    ∷ (units "user_cancelled", units "사용자 취소")
    ∷ (units "issue_cancelled", units "이슈 취소")
    ∷ (units "shutdown", units "서버 종료")
    ∷ (units "orphan_recovered", units "고아 실행 복구")
    ∷ (units "stale_recovered", units "오래된 실행 복구")
    ∷ []

abbrev pub failure_kind_labels : Labels
failure_kind_labels =
    (units "exit_nonzero", units "exit non-zero")
    ∷ (units "timeout", units "timeout")
    ∷ (units "executor_error", units "executor error")
    ∷ (units "worker_panic", units "worker panic")
    ∷ (units "claim_preparation_failed", units "prepare failed")
    ∷ (units "unknown", units "unknown failure")
    ∷ []

abbrev pub cancel_reason_labels : Labels
cancel_reason_labels =
    (units "user", units "사용자 요청")
    ∷ (units "issue", units "이슈 취소")
    ∷ (units "shutdown", units "종료 처리")
    ∷ (units "orphan", units "orphan 회수")
    ∷ (units "stale", units "stale 회수")
    ∷ []

abbrev pub run_event_labels : Labels
run_event_labels =
    (units "run_queued", units "큐 등록")
    ∷ (units "run_claimed", units "워커 할당")
    ∷ (units "executor_starting", units "실행 시작")
    ∷ (units "stdout_truncated", units "stdout 절단")
    ∷ (units "cancel_requested", units "취소 요청")
    ∷ (units "run_cancelled", units "취소 완료")
    ∷ (units "run_completed", units "완료")
    ∷ (units "run_failed", units "실패")
    ∷ (units "run_prepare_failed", units "준비 실패")
    ∷ (units "orphan_recovered", units "orphan 복구")
    ∷ (units "stale_recovered", units "stale 복구")
    ∷ []

abbrev pub get_trigger_label : Text → Text
get_trigger_label trigger = get_mapped_label trigger_labels trigger

abbrev pub get_terminal_reason_label : Text → Text
get_terminal_reason_label value = get_mapped_label terminal_reason_labels value

abbrev pub get_failure_kind_label : Text → Text
get_failure_kind_label value = get_mapped_label failure_kind_labels value

abbrev pub get_cancel_reason_label : Text → Text
get_cancel_reason_label value = get_mapped_label cancel_reason_labels value

abbrev pub get_run_event_label : Text → Text
get_run_event_label value = get_mapped_label run_event_labels value
