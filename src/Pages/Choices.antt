-- ===== src/Pages/Choices.antt =====
-- What is offered and picked: web/src/components/ModelSelect.tsx, WorkspaceSwitcher.tsx and
-- AuthTokenPanel.tsx, and web/src/pages/AgentsPage.tsx. `toLowerCase` is an argument.
pub mod Agents
use cron_agent_dashboard.Prelude.{
  ℕ, zero, suc, ◌+◌, ◌-◌, ◌*◌, ◌/◌, ◌%◌, ◌≤◌, ◌<◌, max, ◌≡◌, refl, sym, ap, ◌∙◌, subst, ◌≢◌, ◌↔◌,
  ◌⊎◌, inl, inr, Bool, true, false, not, ◌&&◌, ◌||◌, Option, none, some, List, [], ◌∷◌, ◌++◌, map,
  arith, Text, units, text_eq, text_eq_iff, text_eq_refl, trim, trim_start, trim_end, is_empty,
  truthy, text_or_empty, or_default, or_text, coalesce, filter, find, any, all, take, length,
  if◌then◌else◌, ltb, leb, ◌==◌, decimal, is_some, head?, Bool-cases, Option-cases, All, All-append,
  All-imp, trimmed, starts_with, sum_by,
}
use cron_agent_dashboard.Api.Records.{Agent}
use cron_agent_dashboard.Api.Responses.{WorkspaceSummary}
use cron_agent_dashboard.Mentions.{includes}

pub record ModelOption : Type 0 where
  pub id : Text
  pub label : Text
  pub provider : Text

abbrev model : Text → Text → Text → ModelOption
model provider id label = record { id = id; label = label; provider = provider }

abbrev pub codex_models : List ModelOption
codex_models =
    model (units "OpenAI") (units "gpt-5.5") (units "GPT-5.5")
    ∷ model (units "OpenAI") (units "gpt-5.4") (units "GPT-5.4")
    ∷ model (units "OpenAI") (units "gpt-5.4-mini") (units "GPT-5.4 Mini")
    ∷ model (units "OpenAI") (units "gpt-5.3-codex") (units "GPT-5.3 Codex")
    ∷ model (units "OpenAI") (units "gpt-5.3-codex-spark") (units "GPT-5.3 Codex Spark")
    ∷ model (units "OpenAI") (units "gpt-5.2") (units "GPT-5.2")
    ∷ []

abbrev pub claude_models : List ModelOption
claude_models =
    model (units "Anthropic") (units "claude-sonnet-4.5") (units "Claude Sonnet 4.5")
    ∷ model (units "Anthropic") (units "claude-opus-4.1") (units "Claude Opus 4.1")
    ∷ model (units "Anthropic") (units "sonnet") (units "Sonnet alias")
    ∷ model (units "Anthropic") (units "opus") (units "Opus alias")
    ∷ []

abbrev pub gemini_models : List ModelOption
gemini_models =
    model (units "Google") (units "gemini-3-pro") (units "Gemini 3 Pro")
    ∷ model (units "Google") (units "gemini-2.5-pro") (units "Gemini 2.5 Pro")
    ∷ model (units "Google") (units "gemini-2.5-flash") (units "Gemini 2.5 Flash")
    ∷ []

-- `modelOptions[runtime] ?? []`
unfoldable pub model_options : Text → List ModelOption
model_options runtime =
    if text_eq runtime (units "codex")
    then codex_models
    else if text_eq runtime (units "claude")
    then claude_models
    else if text_eq runtime (units "gemini")
    then gemini_models
    else []

abbrev pub default_helper : Text
default_helper = units "비워두면 런타임 기본 모델을 사용합니다. 목록에 없는 모델 ID도 직접 입력할 수 있습니다."

abbrev pub display_runtime : Text → Text
display_runtime runtime = if is_empty runtime then units "runtime" else runtime

unfoldable pub selected_model : Text → Text → Option ModelOption
unfolding model_options
selected_model runtime value = find (λ o. text_eq o.id value) (model_options runtime)

-- The chips, and whether each is active; the first one stands for no model.
unfoldable pub model_chips : Text → Text → List (Text × Bool)
unfolding model_options
model_chips runtime value =
    (units "기본", is_empty value)
    ∷ map (λ o. (o.label, text_eq value o.id)) (take 5 (model_options runtime))

unfoldable pub model_note : Text → Text → Text → Text
unfolding selected_model
model_note runtime value helper = elim (selected_model runtime value) [
  | some o ↦ o.provider ++ (units " · " ++ o.id)
  | none ↦ if is_empty value then helper else units "직접 입력한 모델 ID: " ++ value
]

-- `[a, b, …].filter(Boolean).some(value => value.toLowerCase().includes(q))`
abbrev pub mentions : (Text → Text) → Text → List Text → Bool
mentions lower q = any (λ v. not (is_empty v) && includes (lower v) q)

unfoldable pub filtered_workspaces :
    (Text → Text) → Text → List WorkspaceSummary → List WorkspaceSummary
unfolding includes
filtered_workspaces lower query workspaces =
    let keyword = lower (trim query) in
    if is_empty keyword
    then workspaces
    else filter
        (λ w. mentions lower keyword (w.name ∷ w.slug ∷ w.identifier_prefix ∷ w.description ∷ []))
        workspaces

-- The switcher, and the workspace that was asked for, or a new one
pub record Switcher : Type 0 where
  pub opened : Bool
  pub query : Text

pub data Choice : Type 0 where
  selects : Text → Choice
  creates : Choice

unfoldable pub select_workspace : Text → Switcher → Switcher × Choice
select_workspace slug s = (record { opened = false; query = [] }, selects slug)

unfoldable pub create_workspace : Switcher → Switcher × Choice
create_workspace s = (record { opened = false; query = [] }, creates)

-- Escape and a click outside close it and keep the query.
unfoldable pub dismiss_switcher : Switcher → Switcher
dismiss_switcher s = record s { opened = false }

pub data AgentFilter : Type 0 where
  all_agents main codex claude gemini : AgentFilter

abbrev pub agent_filters : List (AgentFilter × Text)
agent_filters =
    (all_agents, units "전체")
    ∷ (main, units "Main")
    ∷ (codex, units "codex")
    ∷ (claude, units "claude")
    ∷ (gemini, units "gemini")
    ∷ []

abbrev pub fits_filter : AgentFilter → Agent → Bool
fits_filter all_agents agent = true
fits_filter main agent = agent.is_main
fits_filter codex agent = text_eq agent.runtime (units "codex")
fits_filter claude agent = text_eq agent.runtime (units "claude")
fits_filter gemini agent = text_eq agent.runtime (units "gemini")

abbrev pub agent_texts : Agent → List Text
agent_texts agent =
    agent.name
    ∷ agent.runtime
    ∷ or_default agent.model (units "기본")
    ∷ text_or_empty agent.summary
    ∷ text_or_empty agent.tags
    ∷ agent.instructions
    ∷ []

unfoldable pub visible_agents :
    (Text → Text) → AgentFilter → Text → Option (List Agent) → List Agent
unfolding includes
visible_agents lower chosen query agents =
    let q = lower (trim query) in
    filter (λ a. fits_filter chosen a && (is_empty q || mentions lower q (agent_texts a)))
      (coalesce agents [])

unfoldable pub count_agents : AgentFilter → Option (List Agent) → ℕ
count_agents chosen agents = length (filter (fits_filter chosen) (coalesce agents []))
