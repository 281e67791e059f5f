-- ===== src/Chains/Totals.antt =====
-- The figures of a chain: what each summary counts, and what all of them count together.
use cron_agent_dashboard.Prelude.{
  ℕ, ◌+◌, ◌≡◌, refl, sym, ◌∙◌, List, [], ◌∷◌, map, Text, text_eq, Bool-cases, inl, inr, length,
  length-append, sum_by, sum_by-append, max_by, max_by-append, coalesce, All, arith,
}
use cron_agent_dashboard.Prelude.Sort.{Collation, length-sort_by, sum_by-sort_by, max_by-sort_by}
use cron_agent_dashboard.Api.Records.{Run}
use cron_agent_dashboard.Chains.{
  ChainSummary, chain_key, add_run, empty_summary, put_run, group_runs, enqueued_le, newest_first,
  finish, summarize_chains,
}
use cron_agent_dashboard.Chains.Groups.{All-finish}

abbrev pub depth_of : Run → ℕ
depth_of r = coalesce r.chain_depth 0

abbrev pub input_of : Run → ℕ
input_of r = coalesce r.input_tokens 0

abbrev pub output_of : Run → ℕ
output_of r = coalesce r.output_tokens 0

abbrev pub cost_of : Run → ℕ
cost_of r = coalesce r.total_cost_micros 0

-- The figures agree with the runs of the chain.
pub record Counts (s : ChainSummary) : Type 0 where
  pub runs_counted : s.total_runs ≡ length s.runs
  pub depth_counted : s.max_chain_depth ≡ max_by depth_of s.runs
  pub input_counted : s.total_input_tokens ≡ sum_by input_of s.runs
  pub output_counted : s.total_output_tokens ≡ sum_by output_of s.runs
  pub cost_counted : s.total_cost_micros ≡ sum_by cost_of s.runs

empty_summary-Counts : (key : Text) → Counts (empty_summary key)
unfolding empty_summary
empty_summary-Counts key = record {
  runs_counted = refl;
  depth_counted = refl;
  input_counted = refl;
  output_counted = refl;
  cost_counted = refl;
}

add_run-Counts : (run : Run) (s : ChainSummary) → Counts s → Counts (add_run run s)
unfolding add_run
add_run-Counts run s h = ground (
  arith,
  length-append s.runs (run ∷ []),
  max_by-append depth_of s.runs (run ∷ []),
  sum_by-append input_of s.runs (run ∷ []),
  sum_by-append output_of s.runs (run ∷ []),
  sum_by-append cost_of s.runs (run ∷ []),
)

put_run-Counts :
    (key : Text) (run : Run) (gs : List ChainSummary)
    → All Counts gs
    → All Counts (put_run key run gs)
unfolding put_run
put_run-Counts key run [] h =
    (add_run-Counts run (empty_summary key) (empty_summary-Counts key), tt)
put_run-Counts key run (g ∷ gs) h = elim (Bool-cases (text_eq g.chain_id key)) [
  | inl e ↦ rw e (add_run-Counts run g h.0, h.1)
  | inr n ↦ rw n (h.0, put_run-Counts key run gs h.1)
]

group_runs-Counts :
    (gs : List ChainSummary) (runs : List Run) → All Counts gs → All Counts (group_runs gs runs)
unfolding group_runs
group_runs-Counts gs [] h = h
group_runs-Counts gs (run ∷ rest) h =
    group_runs-Counts (put_run (chain_key run) run gs) rest
      (put_run-Counts (chain_key run) run gs h)

module _ (loc : Collation) where
  finish-Counts : (s : ChainSummary) → Counts s → Counts (finish loc s)
  unfolding finish
  finish-Counts s h =
      let le = enqueued_le loc in
      record {
        runs_counted = h.runs_counted ∙ sym (length-sort_by le s.runs);
        depth_counted = h.depth_counted ∙ sym (max_by-sort_by le depth_of s.runs);
        input_counted = h.input_counted ∙ sym (sum_by-sort_by le input_of s.runs);
        output_counted = h.output_counted ∙ sym (sum_by-sort_by le output_of s.runs);
        cost_counted = h.cost_counted ∙ sym (sum_by-sort_by le cost_of s.runs);
      }

  -- In every summary the counted runs, tokens and cost are those of its runs, and the depth is the
  -- greatest of theirs.
  pub summarize_chains-Counts : (runs : List Run) → All Counts (summarize_chains loc runs)
  unfolding summarize_chains
  summarize_chains-Counts runs =
      All-finish loc Counts Counts finish-Counts (group_runs [] runs) (group_runs-Counts [] runs tt)

-- A figure that `add_run` raises by what the run brings, and that `finish` leaves alone
module _ (total : ChainSummary → ℕ) (weight : Run → ℕ) where
  record IsFigure : Type 0 where
    at_empty : (key : Text) → total (empty_summary key) ≡ 0
    at_add : (run : Run) (s : ChainSummary) → total (add_run run s) ≡ total s + weight run
    at_finish : (loc : Collation) (s : ChainSummary) → total (finish loc s) ≡ total s

  module _ (f : IsFigure) where
    figure-put_run :
        (key : Text) (run : Run) (gs : List ChainSummary)
        → sum_by total (put_run key run gs) ≡ sum_by total gs + weight run
    unfolding put_run
    figure-put_run key run [] = omega (arith, f.at_add run (empty_summary key), f.at_empty key)
    figure-put_run key run (g ∷ gs) = elim (Bool-cases (text_eq g.chain_id key)) [
      | inl e ↦ rw e (omega (arith, f.at_add run g))
      | inr n ↦ rw n (omega (arith, figure-put_run key run gs))
    ]

    figure-group_runs :
        (gs : List ChainSummary) (runs : List Run)
        → sum_by total (group_runs gs runs) ≡ sum_by total gs + sum_by weight runs
    unfolding group_runs
    figure-group_runs gs [] = omega arith
    figure-group_runs gs (run ∷ rest) = omega (
      arith,
      figure-group_runs (put_run (chain_key run) run gs) rest,
      figure-put_run (chain_key run) run gs,
    )

    figure-finish :
        (loc : Collation) (gs : List ChainSummary)
        → sum_by total (map (finish loc) gs) ≡ sum_by total gs
    figure-finish loc [] = refl
    figure-finish loc (g ∷ gs) = omega (arith, f.at_finish loc g, figure-finish loc gs)

    figure-summarize_chains :
        (loc : Collation) (runs : List Run)
        → sum_by total (summarize_chains loc runs) ≡ sum_by weight runs
    unfolding summarize_chains
    figure-summarize_chains loc runs = omega (
      arith,
      sum_by-sort_by (newest_first loc) total (map (finish loc) (group_runs [] runs)),
      figure-finish loc (group_runs [] runs),
      figure-group_runs [] runs,
    )

runs_figure : IsFigure (λ s. s.total_runs) (λ _. 1)
unfolding empty_summary add_run finish
runs_figure = record { at_empty = λ key. refl; at_add = λ run s. refl; at_finish = λ loc s. refl }

input_figure : IsFigure (λ s. s.total_input_tokens) input_of
unfolding empty_summary add_run finish
input_figure = record { at_empty = λ key. refl; at_add = λ run s. refl; at_finish = λ loc s. refl }

output_figure : IsFigure (λ s. s.total_output_tokens) output_of
unfolding empty_summary add_run finish
output_figure = record { at_empty = λ key. refl; at_add = λ run s. refl; at_finish = λ loc s. refl }

cost_figure : IsFigure (λ s. s.total_cost_micros) cost_of
unfolding empty_summary add_run finish
cost_figure = record { at_empty = λ key. refl; at_add = λ run s. refl; at_finish = λ loc s. refl }

sum_by_one : (runs : List Run) → sum_by (λ _. 1) runs ≡ length runs
sum_by_one [] = refl
sum_by_one (r ∷ rs) = omega (arith, sum_by_one rs)

-- Over all chains nothing is lost or counted twice: the runs, tokens and costs of the summaries add
-- up to those of the given runs.
pub summarize_chains_conserves :
    (loc : Collation) (runs : List Run)
    → let summaries = summarize_chains loc runs in
      (sum_by (λ s. s.total_runs) summaries ≡ length runs)
      × (sum_by (λ s. s.total_input_tokens) summaries ≡ sum_by input_of runs)
      × (sum_by (λ s. s.total_output_tokens) summaries ≡ sum_by output_of runs)
      × (sum_by (λ s. s.total_cost_micros) summaries ≡ sum_by cost_of runs)
summarize_chains_conserves loc runs = (
  figure-summarize_chains _ _ runs_figure loc runs ∙ sum_by_one runs,
  figure-summarize_chains _ _ input_figure loc runs,
  figure-summarize_chains _ _ output_figure loc runs,
  figure-summarize_chains _ _ cost_figure loc runs,
)
