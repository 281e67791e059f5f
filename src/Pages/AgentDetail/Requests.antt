-- ===== src/Pages/AgentDetail/Requests.antt =====
-- web/src/pages/AgentDetailPage.tsx: the requests of the page and what they read again.
use cron_agent_dashboard.Prelude.{
  not, Option, none, some, List, [], ◌∷◌, ◌++◌, map, Text, units, trim, is_empty, or_default,
  filter, if◌then◌else◌,
}
use cron_agent_dashboard.Api.Queries.{word, part, shown}
use cron_agent_dashboard.Pages.{Effect, invalidates, navigates}
use cron_agent_dashboard.Pages.AgentDetail.{
  Numbers, AgentForm, RetryPolicy, retry_policy_json, split_comma,
}

abbrev keyed : Text → Option Text → Effect
keyed name id = invalidates (word name ∷ part id ∷ [])

unfoldable pub invalidate_agent : Option Text → Option Text → List Effect
invalidate_agent id slug =
    keyed (units "agent") id
    ∷ keyed (units "agent-instructions") id
    ∷ keyed (units "agents") slug
    ∷ []

unfoldable pub invalidate_skills : Option Text → Option Text → List Effect
invalidate_skills id slug =
    keyed (units "workspace-skills") slug ∷ keyed (units "agent-skills") id ∷ []

abbrev pub agent_path : Option Text → Text → Text
agent_path id rest = units "/agents/" ++ (shown id ++ rest)

-- The body of `update`; `none` is `null`.
pub record AgentUpdate (h : Numbers) : Type 0 where
  pub name : Text
  pub runtime : Text
  pub model : Text
  pub summary : Text
  pub tags : Text
  pub instructions : Text
  pub timeout_seconds_override : Option h.Num
  pub retry_policy_json : Text

unfoldable pub update_agent : (h : Numbers) → (RetryPolicy h → Text) → AgentForm → AgentUpdate h
update_agent h stringify form = record {
  name = form.name;
  runtime = form.runtime;
  model = form.model;
  summary = form.summary;
  tags = form.tags;
  instructions = form.instructions;
  timeout_seconds_override =
      if is_empty (trim form.timeout_seconds_override)
      then none
      else some (h.number form.timeout_seconds_override);
  retry_policy_json = retry_policy_json h stringify form.retry;
}

unfoldable pub promote_path : Option Text → Text
promote_path id = agent_path id (units "/promote")

unfoldable pub agent_removed : Option Text → List Effect
agent_removed slug = navigates (units "/w/" ++ (shown slug ++ units "/agents")) ∷ []

pub record SkillForm : Type 0 where
  pub name : Text
  pub description : Text
  pub triggers : Text
  pub content : Text

pub record AssignmentForm : Type 0 where
  pub skill_id : Text
  pub activation_mode : Text
  pub priority : Text

abbrev pub empty_skill_form : SkillForm
empty_skill_form = record { name = []; description = []; triggers = []; content = [] }

-- The body of `createSkill`
pub record NewSkill : Type 0 where
  pub name : Text
  pub description : Text
  pub triggers : List Text
  pub content : Text
  pub source_type : Text
  pub trust_level : Text

unfoldable pub create_skill : SkillForm → NewSkill
create_skill form = record {
  name = form.name;
  description = form.description;
  triggers = filter (λ v. not (is_empty v)) (map trim (split_comma form.triggers));
  content = form.content;
  source_type = units "manual";
  trust_level = units "local";
}

unfoldable pub skill_created : Text → AssignmentForm → SkillForm × AssignmentForm
skill_created skill_id form =
    (empty_skill_form, record form { skill_id = or_default (some form.skill_id) skill_id })

-- The body of `assignSkill`
pub record Assignment (h : Numbers) : Type 0 where
  pub skill_id : Text
  pub activation_mode : Text
  pub priority : h.Num

unfoldable pub assign_skill : (h : Numbers) → AssignmentForm → Assignment h
assign_skill h form = record {
  skill_id = form.skill_id;
  activation_mode = form.activation_mode;
  priority = h.or_number (h.number form.priority) h.hundred;
}

unfoldable pub unassign_path : Option Text → Text → Text
unassign_path id skill_id = agent_path id (units "/skills/" ++ skill_id)
