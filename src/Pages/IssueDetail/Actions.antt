-- ===== src/Pages/IssueDetail/Actions.antt =====
-- web/src/pages/IssueDetailPage.tsx: the mutations of an issue and the action that was confirmed.
use cron_agent_dashboard.Prelude.{Option, none, some, List, [], ◌∷◌, ◌++◌, Text, units}
use cron_agent_dashboard.Api.Records.{Issue, IssueStatus, Run}
use cron_agent_dashboard.Api.Queries.{shown}
use cron_agent_dashboard.Toasts.{ToastTone}
use cron_agent_dashboard.Widgets.Confirm.{ConfirmAction}
use cron_agent_dashboard.Pages.{Effect, notifies}
use cron_agent_dashboard.Pages.IssueDetail.{
  Address, SubIssueForm, issue_id, invalidate_issue, thrown_message,
}

pub data Mutation : Type 0 where
  rerun_issue cancel_issue_run : Mutation
  update_status : IssueStatus → Mutation

pub data Request : Type 0 where
  posts : Text → Request
  put_status : Text → IssueStatus → Request

-- `mutationFn` of `rerun`, `cancelRun` and `updateStatus`
unfoldable pub mutation_request : Option Issue → Mutation → Request
mutation_request issue rerun_issue =
    posts (units "/issues/" ++ (shown (issue_id issue) ++ units "/rerun"))
mutation_request issue cancel_issue_run =
    posts (units "/issues/" ++ (shown (issue_id issue) ++ units "/cancel"))
mutation_request issue (update_status status) =
    put_status (units "/issues/" ++ shown (issue_id issue)) status

abbrev pub issue_status_toast : IssueStatus → Text
issue_status_toast IssueStatus.open_issue = units "이슈를 다시 열었습니다."
issue_status_toast IssueStatus.done = units "이슈를 완료 처리했습니다."
issue_status_toast IssueStatus.cancelled = units "이슈를 취소했습니다."

abbrev pub success_title : Mutation → Text
success_title rerun_issue = units "재실행을 큐에 등록했습니다."
success_title cancel_issue_run = units "실행 취소를 요청했습니다."
success_title (update_status status) = issue_status_toast status

abbrev pub failure_title : Mutation → Text
failure_title rerun_issue = units "재실행 실패"
failure_title cancel_issue_run = units "실행 취소 실패"
failure_title (update_status status) = units "상태 변경 실패"

-- What has come of a request: nothing was thrown, or something was
pub data MutationOutcome : Type 0 where
  succeeded : MutationOutcome
  threw : Option Text → MutationOutcome

-- The effects, and the question that is left open
unfoldable pub settle :
    Address
    → Option Issue
    → List Run
    → Mutation
    → MutationOutcome
    → Option ConfirmAction
    → List Effect × Option ConfirmAction
unfolding invalidate_issue
settle a issue runs m succeeded asked = (
  invalidate_issue a issue runs ++ (notifies ToastTone.success (success_title m) none ∷ []),
  none,
)
settle a issue runs m (threw thrown) asked =
    (notifies ToastTone.error (failure_title m) (some (thrown_message thrown)) ∷ [], none)

-- `runConfirmedAction`
unfoldable pub run_confirmed_action : Option Issue → Option ConfirmAction → Option Mutation
run_confirmed_action none asked = none
run_confirmed_action (some issue) none = none
run_confirmed_action (some issue) (some ConfirmAction.rerun) = some rerun_issue
run_confirmed_action (some issue) (some ConfirmAction.cancel_run) = some cancel_issue_run
run_confirmed_action (some issue) (some ConfirmAction.mark_done) =
    some (update_status IssueStatus.done)
run_confirmed_action (some issue) (some ConfirmAction.cancel_issue) =
    some (update_status IssueStatus.cancelled)
run_confirmed_action (some issue) (some ConfirmAction.reopen) =
    some (update_status IssueStatus.open_issue)

unfoldable pub sub_issue_path : Option Issue → Text
sub_issue_path issue = units "/issues/" ++ (shown (issue_id issue) ++ units "/subissues")

pub record SubIssueState : Type 0 where
  pub form : SubIssueForm
  pub effects : List Effect

unfoldable pub create_sub_issue :
    Address → Option Issue → List Run → SubIssueForm → MutationOutcome → SubIssueState
unfolding invalidate_issue
create_sub_issue a issue runs form succeeded = record {
  form = record { title = []; body = []; assignee_agent_id = [] };
  effects =
      invalidate_issue a issue runs
      ++ (notifies ToastTone.success (units "하위 이슈를 생성했습니다.") none ∷ []);
}
create_sub_issue a issue runs form (threw thrown) = record {
  form = form;
  effects = notifies ToastTone.error (units "하위 이슈 생성 실패") (some (thrown_message thrown)) ∷ [];
}
