-- ===== src/Api/Queries/Cache.antt =====
-- The cache of the answers: queries that share a key.
use cron_agent_dashboard.Prelude.{
  ℕ, ◌≡◌, refl, sym, ap, ◌∙◌, Option, none, some, List, [], ◌∷◌, ◌++◌, Text, units, text_eq,
  decimal, if◌then◌else◌,
}
use cron_agent_dashboard.Api.Records.{Issue}
use cron_agent_dashboard.Api.Queries.{
  KeyPart, word, number, absent, part, Query, shown, health_query, workspace_query, settings_query,
  usage_summary_query, workspaces_query, agents_query, agent_query,
  agent_instruction_versions_query, issue_attachments_query, workspace_webhooks_query,
  webhook_deliveries_query, workspace_skills_query, agent_activity_query, agent_skills_query,
  IssuesQueryParams, issues_query, workspace_issue_query, sub_issues_query, comments_query,
  runs_query, run_events_query, autopilot_rules_query, build_issues_query,
}

-- a use of one of the hooks, with its arguments
pub data Hook : Type 0 where
  health settings workspaces : Hook
  workspace agents agent agent_instruction_versions issue_attachments workspace_webhooks
        workspace_skills agent_activity agent_skills sub_issues autopilot_rules :
      Option Text → Hook
  usage_summary : ℕ → Hook
  webhook_deliveries : Option Text → ℕ → Hook
  issues : Option Text → IssuesQueryParams → Hook
  workspace_issue : Option Issue → Option Text → Option Text → Hook
  comments runs run_events : Option Text → Option Text → Hook

module _ (encode : List (Text × Text) → Text) where
  unfoldable pub query_of : Hook → Query
  query_of health = health_query
  query_of settings = settings_query
  query_of workspaces = workspaces_query
  query_of (workspace slug) = workspace_query slug
  query_of (agents slug) = agents_query slug
  query_of (agent id) = agent_query id
  query_of (agent_instruction_versions id) = agent_instruction_versions_query id
  query_of (issue_attachments id) = issue_attachments_query id
  query_of (workspace_webhooks slug) = workspace_webhooks_query slug
  query_of (workspace_skills slug) = workspace_skills_query slug
  query_of (agent_activity slug) = agent_activity_query slug
  query_of (agent_skills id) = agent_skills_query id
  query_of (sub_issues id) = sub_issues_query id
  query_of (autopilot_rules slug) = autopilot_rules_query slug
  query_of (usage_summary days) = usage_summary_query days
  query_of (webhook_deliveries id limit) = webhook_deliveries_query id limit
  query_of (issues slug params) = issues_query encode slug params
  query_of (workspace_issue last slug identifier) = workspace_issue_query last slug identifier
  query_of (comments id status) = comments_query id status
  query_of (runs id status) = runs_query id status
  query_of (run_events id status) = run_events_query id status

abbrev unpart : KeyPart → Text
unpart (word t) = t
unpart (number n) = decimal n
unpart absent = units "undefined"

unpart-part : (o : Option Text) → unpart (part o) ≡ shown o
unpart-part none = refl
unpart-part (some t) = refl

-- For a name of a key: what stands in the path before and behind the identifier
abbrev Table : Type 0
Table = List (Text × (Text × Text))

abbrev by_id : Table
by_id =
    (units "workspace", (units "/workspaces/", []))
    ∷ (units "agents", (units "/workspaces/", units "/agents"))
    ∷ (units "agent", (units "/agents/", []))
    ∷ (units "agent-instructions", (units "/agents/", units "/instructions"))
    ∷ (units "attachments", (units "/issues/", units "/attachments"))
    ∷ (units "webhooks", (units "/workspaces/", units "/webhooks"))
    ∷ (units "workspace-skills", (units "/workspaces/", units "/skills"))
    ∷ (units "agent-activity", (units "/workspaces/", units "/agents/activity"))
    ∷ (units "agent-skills", (units "/agents/", units "/skills"))
    ∷ (units "subissues", (units "/issues/", units "/subissues"))
    ∷ (units "autopilot", (units "/workspaces/", units "/autopilot"))
    ∷ (units "comments", (units "/issues/", units "/comments"))
    ∷ (units "runs", (units "/issues/", units "/runs"))
    ∷ (units "run-events", (units "/runs/", units "/events"))
    ∷ (units "usage-summary", (units "/usage/summary?days=", []))
    ∷ []

abbrev look_up : Table → Text → Text × Text
look_up [] name = ([], [])
look_up ((n, e) ∷ table) name = if text_eq n name then e else look_up table name

abbrev around : Text × Text → Text → Text
around (before, []) id = before ++ id
around (before, c ∷ behind) id = before ++ (id ++ c ∷ behind)

abbrev three_parts : Text → Text → Text → Text
three_parts name a b =
    if text_eq name (units "issues")
    then units "/workspaces/" ++ (a ++ (units "/issues" ++ b))
    else if text_eq name (units "issue")
    then units "/workspaces/" ++ (a ++ (units "/issues/" ++ b))
    else units "/webhooks/" ++ (a ++ (units "/deliveries?limit=" ++ b))

abbrev one_part : Text → Text
one_part name = if text_eq name (units "health") then units "/healthz" else units "/" ++ name

-- the path that belongs to a key
path_of_key : List KeyPart → Text
path_of_key (word name ∷ []) = one_part name
path_of_key (word name ∷ p ∷ []) = around (look_up by_id name) (unpart p)
path_of_key (word name ∷ p ∷ q ∷ []) = three_parts name (unpart p) (unpart q)
path_of_key _ = []

by_name :
    (name : Text) (o : Option Text)
    → path_of_key (word name ∷ part o ∷ []) ≡ around (look_up by_id name) (shown o)
unfolding path_of_key
by_name name o = ap (around (look_up by_id name)) (unpart-part o)

module _ (encode : List (Text × Text) → Text) where
  path_of_key_lem : (h : Hook) → path_of_key (query_of encode h).key ≡ (query_of encode h).path
  unfolding query_of path_of_key text_eq decimal health_query workspace_query settings_query
      usage_summary_query workspaces_query agents_query agent_query agent_instruction_versions_query
      issue_attachments_query workspace_webhooks_query webhook_deliveries_query
      workspace_skills_query agent_activity_query agent_skills_query issues_query
      workspace_issue_query sub_issues_query comments_query runs_query run_events_query
      autopilot_rules_query
  path_of_key_lem health = refl
  path_of_key_lem settings = refl
  path_of_key_lem workspaces = refl
  path_of_key_lem (workspace id) = by_name (units "workspace") id
  path_of_key_lem (agents id) = by_name (units "agents") id
  path_of_key_lem (agent id) = by_name (units "agent") id
  path_of_key_lem (agent_instruction_versions id) = by_name (units "agent-instructions") id
  path_of_key_lem (issue_attachments id) = by_name (units "attachments") id
  path_of_key_lem (workspace_webhooks id) = by_name (units "webhooks") id
  path_of_key_lem (workspace_skills id) = by_name (units "workspace-skills") id
  path_of_key_lem (agent_activity id) = by_name (units "agent-activity") id
  path_of_key_lem (agent_skills id) = by_name (units "agent-skills") id
  path_of_key_lem (sub_issues id) = by_name (units "subissues") id
  path_of_key_lem (autopilot_rules id) = by_name (units "autopilot") id
  path_of_key_lem (comments id status) = by_name (units "comments") id
  path_of_key_lem (runs id status) = by_name (units "runs") id
  path_of_key_lem (run_events id status) = by_name (units "run-events") id
  path_of_key_lem (usage_summary days) = refl
  path_of_key_lem (webhook_deliveries id limit) =
      ap (λ t. three_parts (units "webhook-deliveries") t (decimal limit)) (unpart-part id)
  path_of_key_lem (issues slug params) =
      ap (λ t. three_parts (units "issues") t (build_issues_query encode params)) (unpart-part slug)
  path_of_key_lem (workspace_issue last slug identifier) =
      ap (λ t. three_parts (units "issue") t (unpart (part identifier))) (unpart-part slug)
      ∙ ap (three_parts (units "issue") (shown slug)) (unpart-part identifier)

  -- Two uses of the hooks that share a key in the cache get the same path, so that no answer is shown
  -- for another.
  pub query_of_same_key :
      (h k : Hook)
      → (query_of encode h).key ≡ (query_of encode k).key
      → (query_of encode h).path ≡ (query_of encode k).path
  query_of_same_key h k e = sym (path_of_key_lem h) ∙ ap path_of_key e ∙ path_of_key_lem k
