-- ===== src/Panels/Rail.antt =====
-- The usage that the rail shows.
use cron_agent_dashboard.Prelude.{◌+◌, ◌≡◌, List, [], ◌∷◌, length, filter, sum_by, arith}
use cron_agent_dashboard.Api.Records.{Run}
use cron_agent_dashboard.Chains.Totals.{input_of, output_of, cost_of}
use cron_agent_dashboard.Panels.{
  Usage, no_usage, add_usage, usage_from, summarize_run_usage, run_has_usage,
}

-- The figures of `u` are those of `acc` and what the runs bring.
record Adds (acc u : Usage) (runs : List Run) : Type 0 where
  pub input : u.input_tokens ≡ acc.input_tokens + sum_by input_of runs
  pub output : u.output_tokens ≡ acc.output_tokens + sum_by output_of runs
  pub total : u.total_tokens ≡ acc.total_tokens + (sum_by input_of runs + sum_by output_of runs)
  pub cost : u.total_cost_micros ≡ acc.total_cost_micros + sum_by cost_of runs
  pub measured : u.measured_runs ≡ acc.measured_runs + length (filter run_has_usage runs)

usage_from-Adds : (acc : Usage) (runs : List Run) → Adds acc (usage_from acc runs) runs
unfolding usage_from
usage_from-Adds acc [] = ground arith
usage_from-Adds acc (run ∷ runs) = ground (arith, usage_from-Adds (add_usage acc run) runs)

-- The usage adds up the input tokens, the output tokens, both, and the cost over all runs, and counts
-- the runs that have any.
pub summarize_run_usage_totals :
    (runs : List Run)
    → let usage = summarize_run_usage runs in
      (usage.input_tokens ≡ sum_by input_of runs)
      × (usage.output_tokens ≡ sum_by output_of runs)
      × (usage.total_tokens ≡ usage.input_tokens + usage.output_tokens)
      × (usage.total_cost_micros ≡ sum_by cost_of runs)
      × (usage.measured_runs ≡ length (filter run_has_usage runs))
unfolding summarize_run_usage
summarize_run_usage_totals runs =
    let a = usage_from-Adds no_usage runs in
    (
      omega (arith, a.input),
      omega (arith, a.output),
      omega (arith, a.input, a.output, a.total),
      omega (arith, a.cost),
      omega (arith, a.measured),
    )
