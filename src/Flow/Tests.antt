-- ===== src/Flow/Tests.antt =====
-- The graph of an issue with one sub-issue and three runs.
use cron_agent_dashboard.Prelude.{◌≡◌, List, units, ◌++◌, text_or_empty, none, [], ◌∷◌, map, Text}
use cron_agent_dashboard.Prelude.Sort.{by_units, sort_by}
use cron_agent_dashboard.Api.Records.{Run}
use cron_agent_dashboard.Api.Samples.{sample_runs, sample_issue}
use cron_agent_dashboard.Flow.{Graph, build_issue_flow_graph}
use cron_agent_dashboard.Flow.Edges.{source_of, build_issue_flow_graph_targets}

-- a lower case for the tests, which leaves a text as it is
abbrev same_case : Text → Text
same_case t = t

abbrev shown : Graph
shown = build_issue_flow_graph same_case by_units sample_issue (sample_issue ∷ []) sample_runs none

abbrev in_order : List Run
in_order =
    sort_by (λ a b. by_units.le (text_or_empty a.enqueued_at) (text_or_empty b.enqueued_at))
      sample_runs

build_issue_flow_graph_targets_example :
    (map (λ n. n.id) shown.nodes
      ≡ (units "issue-" ++ sample_issue.id)
        ∷ (map (λ s. units "subissue-" ++ s.id) (sample_issue ∷ [])
            ++ map (λ r. units "run-" ++ r.id) in_order))
    × (map (λ e. e.target) shown.edges
        ≡ map (λ s. units "subissue-" ++ s.id) (sample_issue ∷ [])
          ++ map (λ r. units "run-" ++ r.id) in_order)
    × (map (λ e. e.source) shown.edges
        ≡ map (λ _. units "issue-" ++ sample_issue.id) (sample_issue ∷ [])
          ++ map (λ r. source_of sample_issue r.parent_run_id) in_order)
build_issue_flow_graph_targets_example =
    build_issue_flow_graph_targets same_case by_units sample_issue (sample_issue ∷ []) sample_runs
      none
