-- ===== src/Board/Filters.antt =====
-- What the page reads back of the filters that it writes into its address.
use cron_agent_dashboard.Prelude.{
  ◌≡◌, refl, ◌∙◌, ap, not, ◌||◌, ◌&&◌, Option, none, some, [], ◌∷◌, Text, units, text_eq,
  text_eq_iff, is_empty, if◌then◌else◌, arith,
}
use cron_agent_dashboard.Api.Records.{
  IssueStatus, ExecutionStatus, issue_status_text, execution_status_text,
}
use cron_agent_dashboard.Api.Session.{Store, get_item, remove_item}
use cron_agent_dashboard.Api.Session.Tokens.{get_item-remove_item}
use cron_agent_dashboard.Api.Queries.{Filter, every, only}
use cron_agent_dashboard.Board.{
  set_entry, set_param, valid_status_filter, valid_execution_filter, board_query,
}

get_item-set_entry :
    (k v : Text) (s : Store) (j : Text)
    → get_item j (set_entry k v s) ≡ (if text_eq k j then some v else get_item j s)
unfolding set_entry get_item
get_item-set_entry k v [] j = refl
get_item-set_entry k v ((i, w) ∷ s) j = ground (
  arith,
  get_item-set_entry k v s j,
  get_item-remove_item k j s,
  text_eq_iff k j,
  text_eq_iff i k,
  text_eq_iff i j,
)

-- Every entry of the address after a change of `key`, by its name `k`: the cursor goes unless it is
-- only the view that changed; `key` has the new value, or none for an empty value and for `all`; the
-- other entries stay.
pub get_item-set_param :
    (key value : Text) (search : Store) (k : Text)
    → get_item k (set_param key value search) ≡ (
        if text_eq (units "cursor") k && not (text_eq key (units "view"))
        then none
        else if text_eq key k
        then if is_empty value || text_eq value (units "all") then none else some value
        else get_item k search)
unfolding set_param
get_item-set_param key value search k = ground (
  arith,
  get_item-set_entry key value search k,
  get_item-remove_item key k search,
  get_item-remove_item (units "cursor") k (set_entry key value search),
  get_item-remove_item (units "cursor") k (remove_item key search),
)

abbrev pub status_value : Filter IssueStatus → Text
status_value every = units "all"
status_value (only s) = issue_status_text s

abbrev pub execution_value : Filter ExecutionStatus → Text
execution_value every = units "all"
execution_value (only s) = execution_status_text s

abbrev kept : Text → Option Text
kept value = if is_empty value || text_eq value (units "all") then none else some value

read_status : (f : Filter IssueStatus) → valid_status_filter (kept (status_value f)) ≡ f
unfolding valid_status_filter text_eq
read_status every = refl
read_status (only IssueStatus.open_issue) = refl
read_status (only IssueStatus.done) = refl
read_status (only IssueStatus.cancelled) = refl

read_execution :
    (f : Filter ExecutionStatus) → valid_execution_filter (kept (execution_value f)) ≡ f
unfolding valid_execution_filter text_eq
read_execution every = refl
read_execution (only ExecutionStatus.idle) = refl
read_execution (only ExecutionStatus.queued) = refl
read_execution (only ExecutionStatus.running) = refl
read_execution (only ExecutionStatus.done) = refl
read_execution (only ExecutionStatus.failed) = refl
read_execution (only ExecutionStatus.cancelled) = refl

-- A filter that is chosen is the one the page then asks for, and the other filter stays.
pub board_query-set_param :
    (status : Filter IssueStatus) (execution : Filter ExecutionStatus) (search : Store)
    → ((board_query (set_param (units "status") (status_value status) search)).status ≡ some status)
      × ((board_query (set_param (units "status") (status_value status) search)).execution
          ≡ (board_query search).execution)
      × ((board_query (set_param (units "execution") (execution_value execution) search)).execution
          ≡ some execution)
      × ((board_query (set_param (units "execution") (execution_value execution) search)).status
          ≡ (board_query search).status)
unfolding board_query text_eq
board_query-set_param status execution search = (
  ap (λ o. some (valid_status_filter o))
        (get_item-set_param (units "status") (status_value status) search (units "status"))
      ∙ ap some (read_status status),
  ap (λ o. some (valid_execution_filter o))
      (get_item-set_param (units "status") (status_value status) search (units "execution")),
  ap (λ o. some (valid_execution_filter o))
        (get_item-set_param (units "execution") (execution_value execution) search
          (units "execution"))
      ∙ ap some (read_execution execution),
  ap (λ o. some (valid_status_filter o))
      (get_item-set_param (units "execution") (execution_value execution) search (units "status")),
)
