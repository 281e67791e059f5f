-- ===== src/Flow/Edges.antt =====
-- The shape of the graph, and that no edge ends in the air.
use cron_agent_dashboard.Prelude.{
  units, is_empty, if◌then◌else◌, none, some, text_or_empty, ℕ, suc, ◌≡◌, refl, ap, ◌∙◌, List, [],
  ◌∷◌, ◌++◌, map, Option, Text, length,
}
use cron_agent_dashboard.Prelude.Sort.{Collation, sort_by}
use cron_agent_dashboard.Api.Records.{Issue, Run}
use cron_agent_dashboard.Flow.{
  parent_node_id, sub_nodes, sub_edges, run_nodes, run_edges, graph_edge, graph_node, enqueued_le,
  build_issue_flow_graph, issue_node_id, run_node_id, sub_node_id,
}

module _ (lower : Text → Text) (main_key : Text) (y : ℕ) where
  ids-run_nodes :
      (count index : ℕ) (runs : List Run)
      → map (λ n. n.id) (run_nodes lower main_key y count index runs)
        ≡ map (λ r. run_node_id r.id) runs
  unfolding run_nodes graph_node
  ids-run_nodes count index [] = refl
  ids-run_nodes count index (r ∷ runs) =
      ap (run_node_id r.id ∷◌) (ids-run_nodes count (suc index) runs)

ids-sub_nodes :
    (count index : ℕ) (subs : List Issue)
    → map (λ n. n.id) (sub_nodes count index subs) ≡ map sub_node_id subs
unfolding sub_nodes graph_node
ids-sub_nodes count index [] = refl
ids-sub_nodes count index (s ∷ subs) = ap (sub_node_id s ∷◌) (ids-sub_nodes count (suc index) subs)

targets-sub_edges :
    (issue : Issue) (subs : List Issue)
    → map (λ e. e.target) (sub_edges issue subs) ≡ map sub_node_id subs
unfolding sub_edges graph_edge
targets-sub_edges issue [] = refl
targets-sub_edges issue (s ∷ subs) = ap (sub_node_id s ∷◌) (targets-sub_edges issue subs)

targets-run_edges :
    (issue : Issue) (runs : List Run)
    → map (λ e. e.target) (run_edges issue runs) ≡ map (λ r. run_node_id r.id) runs
unfolding run_edges graph_edge
targets-run_edges issue [] = refl
targets-run_edges issue (r ∷ runs) = ap (run_node_id r.id ∷◌) (targets-run_edges issue runs)

map-append : {A B : Type 0} (f : A → B) (xs ys : List A) → map f (xs ++ ys) ≡ map f xs ++ map f ys
map-append f [] ys = refl
map-append f (x ∷ xs) ys = ap (f x ∷◌) (map-append f xs ys)

both :
    {A : Type 0} (f : A → Text) (xs ys : List A) {us vs : List Text}
    → map f xs ≡ us
    → map f ys ≡ vs
    → map f (xs ++ ys) ≡ us ++ vs
both f xs ys p q = map-append f xs ys ∙ rw (p, q) refl

sources-sub_edges :
    (issue : Issue) (subs : List Issue)
    → map (λ e. e.source) (sub_edges issue subs) ≡ map (λ _. issue_node_id issue) subs
unfolding sub_edges graph_edge
sources-sub_edges issue [] = refl
sources-sub_edges issue (s ∷ subs) = ap (issue_node_id issue ∷◌) (sources-sub_edges issue subs)

-- Where the edge to the node of a run comes from
abbrev pub source_of : Issue → Option Text → Text
source_of issue none = units "issue-" ++ issue.id
source_of issue (some parent) =
    if is_empty parent then units "issue-" ++ issue.id else units "run-" ++ parent

parent-source_of :
    (issue : Issue) (parent : Option Text) → parent_node_id issue parent ≡ source_of issue parent
parent-source_of issue none = refl
parent-source_of issue (some []) = refl
parent-source_of issue (some (c ∷ id)) = refl

sources-run_edges :
    (issue : Issue) (runs : List Run)
    → map (λ e. e.source) (run_edges issue runs) ≡ map (λ r. source_of issue r.parent_run_id) runs
unfolding run_edges graph_edge
sources-run_edges issue [] = refl
sources-run_edges issue (r ∷ runs) =
    rw (parent-source_of issue r.parent_run_id)
      (ap (source_of issue r.parent_run_id ∷◌) (sources-run_edges issue runs))

-- With the runs in order of enqueueing: the nodes are `issue-` and the id of the issue, `subissue-` and the id of
-- each sub-issue, and `run-` and the id of each run; there is one edge to each node but the first, in this order;
-- the edge to a sub-issue comes from the issue, and the edge to a run from its parent run, or from the issue where
-- it names none or an empty one.
pub build_issue_flow_graph_targets :
    (lower : Text → Text) (loc : Collation) (issue : Issue) (subs : List Issue) (runs : List Run)
    (main_agent : Option Text)
    → let graph = build_issue_flow_graph lower loc issue subs runs main_agent in
      let sorted =
        sort_by (λ a b. loc.le (text_or_empty a.enqueued_at) (text_or_empty b.enqueued_at)) runs in
      (map (λ n. n.id) graph.nodes
        ≡ (units "issue-" ++ issue.id)
          ∷ (map (λ s. units "subissue-" ++ s.id) subs ++ map (λ r. units "run-" ++ r.id) sorted))
      × (map (λ e. e.target) graph.edges
          ≡ map (λ s. units "subissue-" ++ s.id) subs ++ map (λ r. units "run-" ++ r.id) sorted)
      × (map (λ e. e.source) graph.edges
          ≡ map (λ _. units "issue-" ++ issue.id) subs
            ++ map (λ r. source_of issue r.parent_run_id) sorted)
unfolding build_issue_flow_graph graph_node
build_issue_flow_graph_targets lower loc issue subs runs main_agent =
    let sorted = sort_by (enqueued_le loc) runs in
    let n = length sorted in
    (
      ap (issue_node_id issue ∷◌) (
          both (λ n. n.id) _ _ (ids-sub_nodes (length subs) 0 subs)
            (ids-run_nodes lower _ _ n 0 sorted)),
      both (λ e. e.target) _ _ (targets-sub_edges issue subs) (targets-run_edges issue sorted),
      both (λ e. e.source) _ _ (sources-sub_edges issue subs) (sources-run_edges issue sorted),
    )
