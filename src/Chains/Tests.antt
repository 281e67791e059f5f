-- ===== src/Chains/Tests.antt =====
-- The chains of three runs, of which two belong to one chain.
use cron_agent_dashboard.Prelude.{
  text_or_empty, ◌≡◌, refl, List, [], ◌∷◌, map, units, text_eq, trim, length, filter, All, sum_by,
}
use cron_agent_dashboard.Prelude.Sort.{by_units, unit_le, sort_by, IsSorted}
use cron_agent_dashboard.Api.Samples.{sample_runs}
use cron_agent_dashboard.Chains.{summarize_chains, enqueued_le, ChainSummary}
use cron_agent_dashboard.Chains.Groups.{summarize_chains-groups, HasDistinctIds, has_key}
use cron_agent_dashboard.Chains.Totals.{
  summarize_chains-Counts, summarize_chains_conserves, Counts, input_of, output_of, cost_of,
}
use cron_agent_dashboard.Chains.Order.{summarize_chains-IsSorted, Spans}

abbrev shown : List ChainSummary
shown = summarize_chains by_units sample_runs

shown_chains : map (λ s. s.chain_id) shown ≡ units "c1" ∷ units "c2" ∷ []
unfolding summarize_chains sort_by text_eq trim unit_le
shown_chains = refl

summarize_chains-groups_example :
    HasDistinctIds shown
    × All
        (λ s. s.runs ≡ sort_by (enqueued_le by_units) (filter (has_key s.chain_id) sample_runs))
        shown
summarize_chains-groups_example = summarize_chains-groups by_units sample_runs

summarize_chains-Counts_example : All Counts shown
summarize_chains-Counts_example = summarize_chains-Counts by_units sample_runs

summarize_chains_conserves_example :
    (sum_by (λ s. s.total_runs) shown ≡ length sample_runs)
    × (sum_by (λ s. s.total_input_tokens) shown ≡ sum_by input_of sample_runs)
    × (sum_by (λ s. s.total_output_tokens) shown ≡ sum_by output_of sample_runs)
    × (sum_by (λ s. s.total_cost_micros) shown ≡ sum_by cost_of sample_runs)
summarize_chains_conserves_example = summarize_chains_conserves by_units sample_runs

summarize_chains-IsSorted_example :
    IsSorted
      (λ a b. by_units.le (text_or_empty b.first_enqueued_at) (text_or_empty a.first_enqueued_at))
      shown
    × All (Spans by_units sample_runs) shown
summarize_chains-IsSorted_example = summarize_chains-IsSorted by_units sample_runs
