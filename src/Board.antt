-- ===== src/Board.antt =====
-- web/src/pages/BoardPage.tsx: the filters in the address, the columns, the buttons of a card, and the
-- action that waits for its confirmation. `URLSearchParams` is the list of its entries; `toLowerCase`
-- is an argument.
pub mod Wording
pub mod Filters
pub mod Cards
pub mod Changes
mod Tests
use cron_agent_dashboard.Prelude.{
  ℕ, Bool, true, false, not, ◌&&◌, ◌||◌, Option, none, some, List, [], ◌∷◌, ◌++◌, map, Text, units,
  text_eq, is_empty, filter, length, any, all, if◌then◌else◌, ltb, text_or_empty,
}
use cron_agent_dashboard.Api.Records.{Issue, IssueStatus, ExecutionStatus, Agent, issue_status_text}
use cron_agent_dashboard.Api.Session.{Store, get_item, remove_item}
use cron_agent_dashboard.Api.Queries.{Filter, every, only, IssuesQueryParams}

pub data PendingAction : Type 0 where
  set_status : Issue → IssueStatus → PendingAction
  cancel_execution : Issue → PendingAction

abbrev pub dev_team_agent_names : List Text
dev_team_agent_names =
    units "lead"
    ∷ units "designer"
    ∷ units "backend"
    ∷ units "frontend"
    ∷ units "db"
    ∷ units "qa"
    ∷ units "devops"
    ∷ []

unfoldable pub is_dev_team_workspace : (Text → Text) → List Agent → Bool
unfolding text_eq
is_dev_team_workspace lower agents =
    let names = map (λ a. lower a.name) agents in
    all (λ n. any (λ m. text_eq m n) names) dev_team_agent_names

unfoldable pub valid_status_filter : Option Text → Filter IssueStatus
unfolding text_eq
valid_status_filter none = every
valid_status_filter (some value) =
    if text_eq value (units "open")
    then only IssueStatus.open_issue
    else if text_eq value (units "done")
    then only IssueStatus.done
    else if text_eq value (units "cancelled")
    then only IssueStatus.cancelled
    else every

unfoldable pub valid_execution_filter : Option Text → Filter ExecutionStatus
unfolding text_eq
valid_execution_filter none = every
valid_execution_filter (some value) =
    if text_eq value (units "idle")
    then only ExecutionStatus.idle
    else if text_eq value (units "queued")
    then only ExecutionStatus.queued
    else if text_eq value (units "running")
    then only ExecutionStatus.running
    else if text_eq value (units "done")
    then only ExecutionStatus.done
    else if text_eq value (units "failed")
    then only ExecutionStatus.failed
    else if text_eq value (units "cancelled")
    then only ExecutionStatus.cancelled
    else every

-- What the page asks the server for, by its address
unfoldable pub board_query : Store → IssuesQueryParams
unfolding valid_status_filter valid_execution_filter get_item
board_query search = record {
  status = some (valid_status_filter (get_item (units "status") search));
  execution = some (valid_execution_filter (get_item (units "execution") search));
  assignee = some (text_or_empty (get_item (units "agent") search));
  q = some (text_or_empty (get_item (units "q") search));
  limit = some 200;
}

-- `next.set(key, value)`: the first entry is replaced and the others go, or one is added at the end.
unfoldable pub set_entry : Text → Text → Store → Store
unfolding remove_item
set_entry k v [] = (k, v) ∷ []
set_entry k v ((j, w) ∷ s) =
    if text_eq j k then (k, v) ∷ remove_item k s else (j, w) ∷ set_entry k v s

-- `setParam`, on the search part of the address
unfoldable pub set_param : Text → Text → Store → Store
unfolding set_entry remove_item text_eq
set_param key value search =
    let next =
      if is_empty value || text_eq value (units "all")
      then remove_item key search
      else set_entry key value search in
    if not (text_eq key (units "view")) then remove_item (units "cursor") next else next

abbrev pub has_status : IssueStatus → Issue → Bool
has_status IssueStatus.open_issue issue = elim issue.status [
  | IssueStatus.open_issue ↦ true
  | _ ↦ false
]
has_status IssueStatus.done issue = elim issue.status [ IssueStatus.done ↦ true | _ ↦ false ]
has_status IssueStatus.cancelled issue = elim issue.status [
  | IssueStatus.cancelled ↦ true
  | _ ↦ false
]

-- the columns of the board, and the counts above them
abbrev pub grouped : List Issue → IssueStatus → List Issue
grouped issues status = filter (has_status status) issues

abbrev pub counts : List Issue → IssueStatus → ℕ
counts issues status = length (filter (has_status status) issues)

abbrev pub busy : Issue → Bool
busy issue = elim issue.execution_status [
  | ExecutionStatus.queued ↦ true
  | ExecutionStatus.running ↦ true
  | _ ↦ false
]

abbrev pub review_pending : Issue → Bool
review_pending issue =
    has_status IssueStatus.open_issue issue
    && elim issue.execution_status [ ExecutionStatus.done ↦ true | _ ↦ false ]
    && ltb 0 issue.comment_count

-- a button of a card: what it asks for, and whether it is off
pub record Button : Type 0 where
  pub action : PendingAction
  pub disabled : Bool

abbrev button : PendingAction → Bool → Button
button action disabled = record { action = action; disabled = disabled }

-- The buttons of `IssueCard`; `disabled` is set while a request is under way.
unfoldable pub card_actions : Issue → Bool → List Button
card_actions issue disabled =
    let first =
      if has_status IssueStatus.open_issue issue
      then button (set_status issue IssueStatus.done) (busy issue || disabled)
      else button (set_status issue IssueStatus.open_issue) disabled in
    first
    ∷ (if busy issue
        then button (cancel_execution issue) disabled ∷ []
        else if not (has_status IssueStatus.cancelled issue)
        then button (set_status issue IssueStatus.cancelled) disabled ∷ []
        else [])

-- A request of the page: its method, its path, and the status in its body, if it has one
pub record Call : Type 0 where
  pub method : Text
  pub path : Text
  pub status : Option Text

-- `executePendingAction`, with the `mutationFn` it calls
unfoldable pub execute_pending_action : Option PendingAction → Option Call
execute_pending_action none = none
execute_pending_action (some (set_status issue status)) = some (record {
  method = units "PUT";
  path = units "/issues/" ++ issue.id;
  status = some (issue_status_text status);
})
execute_pending_action (some (cancel_execution issue)) = some (record {
  method = units "POST";
  path = units "/issues/" ++ (issue.id ++ units "/cancel");
  status = none;
})
