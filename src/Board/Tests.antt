-- ===== src/Board/Tests.antt =====
-- The board with one issue, and an address with a cursor.
use cron_agent_dashboard.Prelude.{
  ◌≡◌, false, not, ◌&&◌, ◌||◌, none, some, [], ◌∷◌, units, text_eq, is_empty, All, if◌then◌else◌,
}
use cron_agent_dashboard.Api.Records.{Issue, IssueStatus, ExecutionStatus}
use cron_agent_dashboard.Api.Samples.{sample_issue}
use cron_agent_dashboard.Api.Session.{Store, get_item}
use cron_agent_dashboard.Api.Queries.{Filter, only}
use cron_agent_dashboard.Board.{card_actions, set_param, board_query}
use cron_agent_dashboard.Board.Cards.{card_actions_fit, Fits}
use cron_agent_dashboard.Board.Filters.{
  get_item-set_param, board_query-set_param, status_value, execution_value,
}

abbrev address : Store
address = (units "status", units "done") ∷ (units "cursor", units "9") ∷ []

abbrev queued_issue : Issue
queued_issue = record sample_issue { execution_status = ExecutionStatus.queued }

card_actions_fit_example :
    All (λ b. b.disabled ≡ false → Fits queued_issue b.action) (card_actions queued_issue false)
card_actions_fit_example = card_actions_fit queued_issue false

get_item-set_param_example :
    get_item (units "cursor") (set_param (units "status") (units "all") address) ≡ (
      if text_eq (units "cursor") (units "cursor") && not (text_eq (units "status") (units "view"))
      then none
      else if text_eq (units "status") (units "cursor")
      then if is_empty (units "all") || text_eq (units "all") (units "all")
        then none
        else some (units "all")
      else get_item (units "cursor") address)
get_item-set_param_example =
    get_item-set_param (units "status") (units "all") address (units "cursor")

abbrev open_only : Filter IssueStatus
open_only = only IssueStatus.open_issue

abbrev idle_only : Filter ExecutionStatus
idle_only = only ExecutionStatus.idle

board_query-set_param_example :
    ((board_query (set_param (units "status") (status_value open_only) address)).status
      ≡ some open_only)
    × ((board_query (set_param (units "status") (status_value open_only) address)).execution
        ≡ (board_query address).execution)
    × ((board_query (set_param (units "execution") (execution_value idle_only) address)).execution
        ≡ some idle_only)
    × ((board_query (set_param (units "execution") (execution_value idle_only) address)).status
        ≡ (board_query address).status)
board_query-set_param_example = board_query-set_param open_only idle_only address
