-- ===== src/Pages/AgentDetail/Tests.antt =====
-- Runs of the agent page at concrete inputs.
use cron_agent_dashboard.Prelude.{
  is_space, ℕ, zero, suc, ◌≡◌, refl, ap, true, false, Option, none, some, [], ◌∷◌, map, Text, units,
  text_eq_refl, trim, trim_start, trim_end, length, if◌then◌else◌, ltb, ◌==◌,
}
use cron_agent_dashboard.Api.Records.{Agent}
use cron_agent_dashboard.Pages.AgentDetail.{
  Numbers, RetryFields, RetryPolicy, AgentForm, Page, reads, edits, saves, fallback, form_of_agent,
  run, retry_policy, retry_policy_json, retry_policy_from_json, join_comma, split_comma,
}
use cron_agent_dashboard.Pages.AgentDetail.Loading.{run-typed, run_saved, typed}
use cron_agent_dashboard.Pages.AgentDetail.Retry.{
  Reads, HasNoComma, retry_policy_from_json-retry_policy_json,
}

abbrev lead : Agent
lead = record {
  id = units "a1";
  name = units "lead";
  runtime = units "codex";
  model = none;
  instructions = units "plan";
  instructions_version = some 1;
  summary = none;
  tags = none;
  is_main = true;
  timeout_seconds_override = none;
  retry_policy_json = none;
}

abbrev saved_lead : Agent
saved_lead = record lead { name = units "chief" }

abbrev no_retry : Option Text → RetryFields
no_retry value = fallback

abbrev loaded_page : Page
loaded_page = record {
  data_read = some lead;
  form = form_of_agent no_retry lead;
  dirty = false;
  loaded_agent_id = some (units "a1");
}

abbrev rename : AgentForm → AgentForm
rename form = record form { name = units "chief" }

abbrev describe : AgentForm → AgentForm
describe form = record form { summary = units "leads" }

run-typed_example :
    (run no_retry loaded_page (edits rename ∷ reads lead ∷ edits describe ∷ [])).form
    ≡ typed (reads lead ∷ edits describe ∷ []) (rename loaded_page.form)
run-typed_example =
    run-typed no_retry loaded_page lead rename (reads lead ∷ edits describe ∷ []) refl refl
      (text_eq_refl (units "a1"), (tt, tt))

abbrev changed_page : Page
changed_page = record loaded_page { form = rename loaded_page.form; dirty = true }

run_saved_example :
    ((run no_retry changed_page (saves ∷ [])).form ≡ form_of_agent no_retry lead)
    × ((run no_retry changed_page (saves ∷ edits describe ∷ reads saved_lead ∷ [])).form
        ≡ describe (form_of_agent no_retry lead))
run_saved_example =
    run_saved no_retry changed_page lead saved_lead describe refl refl refl
      (text_eq_refl (units "a1"))

-- Numbers for the tests: `n` is written as `n` ones.
abbrev ones : ℕ → Text
ones zero = []
ones (suc n) = 0x31 ∷ ones n

abbrev tally : Numbers
tally = record {
  Num = ℕ;
  number = length;
  string = ones;
  is_positive = ltb 0;
  or_number = λ n d. if n == 0 then d else n;
  one = 1;
  hundred = 100;
}

trim_end-ones : (n : ℕ) → trim_end (ones n) ≡ ones n
unfolding trim_end is_space
trim_end-ones zero = refl
trim_end-ones (suc zero) = refl
trim_end-ones (suc (suc n)) = rw (trim_end-ones (suc n)) refl

trim-ones : (n : ℕ) → trim (ones n) ≡ ones n
unfolding trim trim_start is_space
trim-ones zero = refl
trim-ones (suc n) = trim_end-ones (suc n)

length-ones : (n : ℕ) → length (ones n) ≡ n
length-ones zero = refl
length-ones (suc n) = ap suc (length-ones n)

no_comma_ones : (n : ℕ) → HasNoComma (ones n)
no_comma_ones zero = refl
no_comma_ones (suc n) = no_comma_ones n

tally-Reads : Reads tally
tally-Reads = record {
  number-string = λ n h. rw (trim-ones n) (length-ones n);
  string-HasNoComma = λ n h. no_comma_ones n;
  nothing = refl;
}

abbrev twice : RetryFields
twice = record {
  max_attempts = ones 2;
  backoff_seconds = join_comma (map ones (3 ∷ 5 ∷ []));
  retry_on_timeout = true;
  retry_on_executor_error = false;
}

abbrev twice_policy : RetryPolicy tally
twice_policy = record {
  max_attempts = some 2;
  backoff_seconds = some (3 ∷ 5 ∷ []);
  retry_on = some (units "timeout" ∷ []);
}

retry_policy_of_twice : retry_policy tally twice ≡ twice_policy
unfolding retry_policy split_comma join_comma trim trim_start trim_end is_space
retry_policy_of_twice = refl

retry_policy_from_json-retry_policy_json_example :
    retry_policy_from_json tally
      (λ t. some (retry_policy tally twice))
      (some (retry_policy_json tally (λ p. units "{}") twice))
    ≡ twice
retry_policy_from_json-retry_policy_json_example =
    retry_policy_from_json-retry_policy_json tally tally-Reads
      (λ t. some (retry_policy tally twice)) (λ p. units "{}") twice (3 ∷ 5 ∷ []) refl
      (refl, (refl, tt)) refl refl refl
