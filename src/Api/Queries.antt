-- ===== src/Api/Queries.antt =====
-- web/src/api/queries.ts, the hooks: the key under which an answer is cached, whether the query runs,
-- how often it is repeated, and the path it gets. A path is a template: an undefined part is written
-- `undefined`. `URLSearchParams.toString` belongs to the host and is the argument `encode`. The
-- selection of the answer's field is left out.
pub mod Cache
pub mod Polling
mod Tests
use cron_agent_dashboard.Prelude.{
  ℕ, Bool, true, false, not, ◌&&◌, ◌||◌, Option, none, some, List, [], ◌∷◌, ◌++◌, Text, units,
  text_eq, trim, is_empty, truthy, decimal, if◌then◌else◌, ◌==◌, coalesce,
}
use cron_agent_dashboard.Api.Records.{
  Issue, IssueStatus, ExecutionStatus, issue_status_text, execution_status_text,
}

-- a part of a key: a text, a number, or `undefined`
pub data KeyPart : Type 0 where
  word : Text → KeyPart
  number : ℕ → KeyPart
  absent : KeyPart

abbrev pub part : Option Text → KeyPart
part none = absent
part (some t) = word t

-- `refetch_interval`: none for `false`, or where none is given
pub record Query : Type 0 where
  pub key : List KeyPart
  pub enabled : Bool
  pub refetch_interval : Option ℕ
  pub path : Text

-- an identifier within a template
abbrev pub shown : Option Text → Text
shown none = units "undefined"
shown (some t) = t

abbrev static : Text → Text → Query
static name path = record {
  key = word name ∷ [];
  enabled = true;
  refetch_interval = none;
  path = path;
}

abbrev keyed : Text → Option Text → Text → Query
keyed name id path = record {
  key = word name ∷ part id ∷ [];
  enabled = truthy id;
  refetch_interval = none;
  path = path;
}

abbrev polled : Option ℕ → Query → Query
polled interval q = record q { refetch_interval = interval }

unfoldable pub health_query : Query
health_query = static (units "health") (units "/healthz")

unfoldable pub workspace_query : Option Text → Query
workspace_query slug = keyed (units "workspace") slug (units "/workspaces/" ++ shown slug)

unfoldable pub settings_query : Query
settings_query = static (units "settings") (units "/settings")

unfoldable pub usage_summary_query : ℕ → Query
unfolding decimal
usage_summary_query days = record {
  key = word (units "usage-summary") ∷ number days ∷ [];
  enabled = true;
  refetch_interval = none;
  path = units "/usage/summary?days=" ++ decimal days;
}

unfoldable pub workspaces_query : Query
workspaces_query = static (units "workspaces") (units "/workspaces")

abbrev under_workspace : Option Text → Text → Text
under_workspace slug rest = units "/workspaces/" ++ (shown slug ++ rest)

unfoldable pub agents_query : Option Text → Query
agents_query slug = keyed (units "agents") slug (under_workspace slug (units "/agents"))

unfoldable pub agent_query : Option Text → Query
agent_query id = keyed (units "agent") id (units "/agents/" ++ shown id)

unfoldable pub agent_instruction_versions_query : Option Text → Query
agent_instruction_versions_query id =
    keyed (units "agent-instructions") id (units "/agents/" ++ (shown id ++ units "/instructions"))

unfoldable pub issue_attachments_query : Option Text → Query
issue_attachments_query id =
    keyed (units "attachments") id (units "/issues/" ++ (shown id ++ units "/attachments"))

unfoldable pub workspace_webhooks_query : Option Text → Query
workspace_webhooks_query slug =
    keyed (units "webhooks") slug (under_workspace slug (units "/webhooks"))

unfoldable pub webhook_deliveries_query : Option Text → ℕ → Query
unfolding decimal
webhook_deliveries_query id limit = record {
  key = word (units "webhook-deliveries") ∷ part id ∷ number limit ∷ [];
  enabled = truthy id;
  refetch_interval = some 15000;
  path = units "/webhooks/" ++ (shown id ++ (units "/deliveries?limit=" ++ decimal limit));
}

unfoldable pub workspace_skills_query : Option Text → Query
workspace_skills_query slug =
    keyed (units "workspace-skills") slug (under_workspace slug (units "/skills"))

unfoldable pub agent_activity_query : Option Text → Query
agent_activity_query slug =
    polled (some 5000)
      (keyed (units "agent-activity") slug (under_workspace slug (units "/agents/activity")))

unfoldable pub agent_skills_query : Option Text → Query
agent_skills_query id =
    keyed (units "agent-skills") id (units "/agents/" ++ (shown id ++ units "/skills"))

-- A filter of the issue list: all, or one value
pub data Filter (A : Type 0) : Type 0 where
  every : Filter A
  only : A → Filter A

pub record IssuesQueryParams : Type 0 where
  pub status : Option (Filter IssueStatus)
  pub execution : Option (Filter ExecutionStatus)
  pub assignee : Option Text
  pub q : Option Text
  pub limit : Option ℕ

-- `if (value) search.set(name, value)`; the names are distinct and set in this order
abbrev set_text : Text → Option Text → List (Text × Text) → List (Text × Text)
set_text name none rest = rest
set_text name (some []) rest = rest
set_text name (some (c ∷ s)) rest = (name, c ∷ s) ∷ rest

abbrev pub filter_text : {A : Type 0} → (A → Text) → Option (Filter A) → Option Text
filter_text text none = none
filter_text text (some every) = none
filter_text text (some (only a)) = some (text a)

abbrev pub number_text : Option ℕ → Option Text
number_text none = none
number_text (some n) = if n == 0 then none else some (decimal n)

abbrev pub trimmed_text : Option Text → Option Text
trimmed_text none = none
trimmed_text (some t) = some (trim t)

unfoldable pub issues_search : IssuesQueryParams → List (Text × Text)
unfolding decimal trim
issues_search params = set_text (units "status") (filter_text issue_status_text params.status) (
    set_text (units "execution") (filter_text execution_status_text params.execution) (
      set_text (units "assignee") params.assignee (
        set_text (units "q") (trimmed_text params.q)
          (set_text (units "limit") (number_text params.limit) []))))

module _ (encode : List (Text × Text) → Text) where
  unfoldable pub build_issues_query : IssuesQueryParams → Text
  unfolding issues_search
  build_issues_query params =
      let value = encode (issues_search params) in if is_empty value then [] else units "?" ++ value

  unfoldable pub issues_query : Option Text → IssuesQueryParams → Query
  unfolding build_issues_query
  issues_query slug params =
      let query_string = build_issues_query params in
      record {
        key = word (units "issues") ∷ part slug ∷ word query_string ∷ [];
        enabled = truthy slug;
        refetch_interval = some 5000;
        path = under_workspace slug (units "/issues" ++ query_string);
      }

-- `status === 'queued' || status === 'running' ? 3_000 : false`
unfoldable pub live_interval : Option Text → Option ℕ
unfolding text_eq
live_interval none = none
live_interval (some s) =
    if text_eq s (units "queued") || text_eq s (units "running") then some 3000 else none

abbrev pub status_of : Option Issue → Option Text
status_of none = none
status_of (some issue) = some (execution_status_text issue.execution_status)

-- `last` is the issue last read, if any.
unfoldable pub workspace_issue_query : Option Issue → Option Text → Option Text → Query
unfolding live_interval
workspace_issue_query last slug identifier = record {
  key = word (units "issue") ∷ part slug ∷ part identifier ∷ [];
  enabled = truthy slug && truthy identifier;
  refetch_interval = live_interval (status_of last);
  path = under_workspace slug (units "/issues/" ++ shown identifier);
}

unfoldable pub sub_issues_query : Option Text → Query
sub_issues_query id =
    keyed (units "subissues") id (units "/issues/" ++ (shown id ++ units "/subissues"))

unfoldable pub comments_query : Option Text → Option Text → Query
unfolding live_interval
comments_query id status =
    polled (live_interval status)
      (keyed (units "comments") id (units "/issues/" ++ (shown id ++ units "/comments")))

unfoldable pub runs_query : Option Text → Option Text → Query
unfolding live_interval
runs_query id status =
    polled (live_interval status)
      (keyed (units "runs") id (units "/issues/" ++ (shown id ++ units "/runs")))

unfoldable pub run_events_query : Option Text → Option Text → Query
unfolding live_interval
run_events_query id status =
    polled (live_interval status)
      (keyed (units "run-events") id (units "/runs/" ++ (shown id ++ units "/events")))

unfoldable pub autopilot_rules_query : Option Text → Query
autopilot_rules_query slug =
    keyed (units "autopilot") slug (under_workspace slug (units "/autopilot"))
