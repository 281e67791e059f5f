-- ===== src/Chains.antt =====
-- web/src/lib/chainSummary.ts: `summarizeChains` groups an issue's runs by chain. The `Map` keeps
-- its keys in order of insertion: here a list of summaries, each found by its `chain_id`.
pub mod Groups
pub mod Conserved
pub mod Totals
pub mod Order
mod Tests
use cron_agent_dashboard.Prelude.{
  ℕ, ◌+◌, Option, none, some, List, [], ◌∷◌, ◌++◌, map, Bool, Text, text_eq, ltb, if◌then◌else◌,
  coalesce, or_text, or_default, trimmed, text_or_empty, head?, get_last?,
}
use cron_agent_dashboard.Prelude.Sort.{Collation, sort_by}
use cron_agent_dashboard.Api.Records.{Run}

pub record ChainSummary : Type 0 where
  pub chain_id : Text
  pub runs : List Run
  pub total_runs : ℕ
  pub max_chain_depth : ℕ
  pub total_input_tokens : ℕ
  pub total_output_tokens : ℕ
  pub total_cost_micros : ℕ
  pub first_enqueued_at : Option Text
  pub last_activity_at : Option Text
  pub last_status : Option Text
  pub last_agent_name : Option Text

-- `run.chain_id?.trim() || run.id`
pub chain_key : Run → Text
chain_key run = or_default (trimmed run.chain_id) run.id

pub empty_summary : Text → ChainSummary
empty_summary key = record {
  chain_id = key;
  runs = [];
  total_runs = 0;
  max_chain_depth = 0;
  total_input_tokens = 0;
  total_output_tokens = 0;
  total_cost_micros = 0;
  first_enqueued_at = none;
  last_activity_at = none;
  last_status = none;
  last_agent_name = none;
}

-- What the first loop does to the summary of the run's chain
pub add_run : Run → ChainSummary → ChainSummary
add_run run summary =
    let depth = coalesce run.chain_depth 0 in
    record summary {
      runs = summary.runs ++ run ∷ [];
      total_runs = summary.total_runs + 1;
      max_chain_depth =
          if ltb summary.max_chain_depth depth then depth else summary.max_chain_depth;
      total_input_tokens = summary.total_input_tokens + coalesce run.input_tokens 0;
      total_output_tokens = summary.total_output_tokens + coalesce run.output_tokens 0;
      total_cost_micros = summary.total_cost_micros + coalesce run.total_cost_micros 0;
    }

-- One round of the first loop: the summary under `key` is updated, or a new one set at the end.
pub put_run : Text → Run → List ChainSummary → List ChainSummary
unfolding add_run empty_summary
put_run key run [] = add_run run (empty_summary key) ∷ []
put_run key run (g ∷ gs) =
    if text_eq g.chain_id key then add_run run g ∷ gs else g ∷ put_run key run gs

pub group_runs : List ChainSummary → List Run → List ChainSummary
group_runs gs [] = gs
group_runs gs (run ∷ rest) = group_runs (put_run (chain_key run) run gs) rest

-- `(a.enqueued_at ?? '').localeCompare(b.enqueued_at ?? '') <= 0`
abbrev pub enqueued_le : Collation → Run → Run → Bool
enqueued_le loc a b = loc.le (text_or_empty a.enqueued_at) (text_or_empty b.enqueued_at)

-- the comparator of the last `sort`: the later chain first
abbrev pub newest_first : Collation → ChainSummary → ChainSummary → Bool
newest_first loc a b =
    loc.le (text_or_empty b.first_enqueued_at) (text_or_empty a.first_enqueued_at)

-- `run?.f`
abbrev pub field : Option Run → (Run → Option Text) → Option Text
field none f = none
field (some run) f = f run

-- One round of the second loop
unfoldable pub finish : Collation → ChainSummary → ChainSummary
finish loc summary =
    let sorted = sort_by (enqueued_le loc) summary.runs in
    let last = get_last? sorted in
    record summary {
      runs = sorted;
      first_enqueued_at = field (head? sorted) (λ r. r.enqueued_at);
      last_activity_at = or_text (field last (λ r. trimmed r.finished_at)) (
          or_text (field last (λ r. trimmed r.heartbeat_at))
            (or_text (field last (λ r. trimmed r.started_at)) (field last (λ r. r.enqueued_at))));
      last_status = field last (λ r. some r.status);
      last_agent_name = field last (λ r. r.agent_name);
    }

unfoldable pub summarize_chains : Collation → List Run → List ChainSummary
unfolding group_runs put_run chain_key finish
summarize_chains loc runs = sort_by (newest_first loc) (map (finish loc) (group_runs [] runs))
