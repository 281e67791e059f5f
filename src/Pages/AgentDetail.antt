-- ===== src/Pages/AgentDetail.antt =====
-- web/src/pages/AgentDetailPage.tsx: the retry policy as text and as form fields, the form of the agent
-- and when it is loaded, and the requests of the page. `JSON` and the numbers of JavaScript belong to
-- the host.
pub mod Loading
pub mod Requests
pub mod Retry
mod Tests
use cron_agent_dashboard.Prelude.{
  ℕ, zero, suc, ◌+◌, ◌-◌, ◌*◌, ◌/◌, ◌%◌, ◌≤◌, ◌<◌, max, ◌≡◌, refl, sym, ap, ◌∙◌, subst, ◌≢◌, ◌↔◌,
  ◌⊎◌, inl, inr, Bool, true, false, not, ◌&&◌, ◌||◌, Option, none, some, List, [], ◌∷◌, ◌++◌, map,
  arith, Text, units, text_eq, text_eq_iff, text_eq_refl, trim, trim_start, trim_end, is_empty,
  truthy, text_or_empty, or_default, or_text, coalesce, filter, find, any, all, take, length,
  if◌then◌else◌, ltb, leb, ◌==◌, decimal, is_some, head?, Bool-cases, Option-cases, All, All-append,
  All-imp, trimmed, starts_with, sum_by,
}
use cron_agent_dashboard.Api.Records.{Agent}
use cron_agent_dashboard.Api.Queries.{KeyPart, word, part, shown}
use cron_agent_dashboard.Pages.{Effect, invalidates, navigates}

-- `Number(text)`, `String(n)`, `Number.isFinite(n) && n > 0`, and `n || default`
pub record Numbers : Type 1 where
  pub Num : Type 0
  pub number : Text → Num
  pub string : Num → Text
  pub is_positive : Num → Bool
  pub or_number : Num → Num → Num
  pub one : Num
  pub hundred : Num

pub record RetryFields : Type 0 where
  pub max_attempts : Text
  pub backoff_seconds : Text
  pub retry_on_timeout : Bool
  pub retry_on_executor_error : Bool

-- What `JSON.parse` gives, and `JSON.stringify` takes
pub record RetryPolicy (h : Numbers) : Type 0 where
  pub max_attempts : Option h.Num
  pub backoff_seconds : Option (List h.Num)
  pub retry_on : Option (List Text)

abbrev pub fallback : RetryFields
fallback = record {
  max_attempts = units "1";
  backoff_seconds = [];
  retry_on_timeout = true;
  retry_on_executor_error = true;
}

-- `xs.join(',')` and `text.split(',')`
unfoldable pub join_comma : List Text → Text
join_comma [] = []
join_comma (x ∷ []) = x
join_comma (x ∷ y ∷ xs) = x ++ 0x2c ∷ join_comma (y ∷ xs)

abbrev pub cons_part : ℕ → List Text → List Text
cons_part c [] = (c ∷ []) ∷ []
cons_part c (x ∷ xs) = (c ∷ x) ∷ xs

unfoldable pub split_comma : Text → List Text
split_comma [] = [] ∷ []
split_comma (c ∷ s) = if c == 0x2c then [] ∷ split_comma s else cons_part c (split_comma s)

abbrev pub timeout : Text
timeout = units "timeout"

abbrev pub executor_error : Text
executor_error = units "executor_error"

-- An argument `parse` that gives none stands for a `JSON.parse` that throws.
unfoldable pub retry_policy_from_json :
    (h : Numbers) → (Text → Option (RetryPolicy h)) → Option Text → RetryFields
unfolding join_comma
retry_policy_from_json h parse value =
    if not (truthy value) then fallback else elim (parse (text_or_empty value)) [
      | none ↦ fallback
      | some parsed ↦
          let retry_on = coalesce parsed.retry_on (timeout ∷ executor_error ∷ []) in
          record {
            max_attempts = h.string (coalesce parsed.max_attempts h.one);
            backoff_seconds = join_comma (map h.string (coalesce parsed.backoff_seconds []));
            retry_on_timeout = any (λ k. text_eq k timeout) retry_on;
            retry_on_executor_error = any (λ k. text_eq k executor_error) retry_on;
          }
    ]

abbrev pub chosen_kinds : RetryFields → List Text
chosen_kinds form =
    (if form.retry_on_timeout then timeout ∷ [] else [])
    ++ (if form.retry_on_executor_error then executor_error ∷ [] else [])

-- An absent field where the list is empty
abbrev pub present {ℓ} : {A : Type ℓ} → List A → Option (List A)
present [] = none
present (x ∷ xs) = some (x ∷ xs)

unfoldable pub retry_policy : (h : Numbers) → RetryFields → RetryPolicy h
unfolding split_comma trim
retry_policy h form = record {
  max_attempts = some (h.or_number (h.number form.max_attempts) h.one);
  backoff_seconds =
      present
        (filter h.is_positive (map (λ v. h.number (trim v)) (split_comma form.backoff_seconds)));
  retry_on = some (chosen_kinds form);
}

unfoldable pub retry_policy_json : (h : Numbers) → (RetryPolicy h → Text) → RetryFields → Text
unfolding retry_policy
retry_policy_json h stringify form = stringify (retry_policy h form)

pub record AgentForm : Type 0 where
  pub name : Text
  pub runtime : Text
  pub model : Text
  pub summary : Text
  pub tags : Text
  pub instructions : Text
  pub timeout_seconds_override : Text
  pub retry : RetryFields

-- `n ? String(n) : ''`
abbrev pub shown_number : Option ℕ → Text
shown_number none = []
shown_number (some n) = if n == 0 then [] else decimal n

-- The form of an agent, by the fields that its retry policy gives
unfoldable pub form_of_agent : (Option Text → RetryFields) → Agent → AgentForm
form_of_agent fields agent = record {
  name = agent.name;
  runtime = agent.runtime;
  model = text_or_empty agent.model;
  summary = text_or_empty agent.summary;
  tags = text_or_empty agent.tags;
  instructions = agent.instructions;
  timeout_seconds_override = shown_number agent.timeout_seconds_override;
  retry = fields agent.retry_policy_json;
}

-- `data` is the agent as the query last read it.
pub record Page : Type 0 where
  pub data_read : Option Agent
  pub form : AgentForm
  pub dirty : Bool
  pub loaded_agent_id : Option Text

abbrev pub is_loaded : Page → Agent → Bool
is_loaded p agent = elim p.loaded_agent_id [ none ↦ false | some id ↦ text_eq id agent.id ]

-- The effect that runs when the agent read, `dirty` or the loaded id have changed
unfoldable pub load : (Option Text → RetryFields) → Page → Page
unfolding form_of_agent
load fields p = elim p.data_read [
  | none ↦ p
  | some agent ↦ if is_loaded p agent && p.dirty then p else record p {
    form = form_of_agent fields agent;
    loaded_agent_id = some agent.id;
    dirty = false;
  }
]

pub data PageEvent : Type 0 where
  reads : Agent → PageEvent
  edits : (AgentForm → AgentForm) → PageEvent
  saves : PageEvent

-- `updateForm`, the `onSuccess` of `update`, and a new answer of the query
abbrev pub handle : Page → PageEvent → Page
handle p (reads agent) = record p { data_read = some agent }
handle p (edits patch) = record p { dirty = true; form = patch p.form }
handle p saves = record p { dirty = false }

-- The effect finds the form as it left it where nothing that it depends on has changed.
unfoldable pub react : (Option Text → RetryFields) → Page → PageEvent → Page
unfolding load
react fields p e = load fields (handle p e)

unfoldable pub run : (Option Text → RetryFields) → Page → List PageEvent → Page
unfolding react
run fields p [] = p
run fields p (e ∷ es) = run fields (react fields p e) es
