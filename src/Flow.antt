-- ===== src/Flow.antt =====
-- web/src/components/IssueFlowGraph.tsx: the nodes and edges of the flow graph. `toLowerCase` of the
-- host is an argument. The source places a node at `(index - (count - 1) / 2) * 220`, which is
-- `220 * index - 110 * (count - 1)`.
pub mod Edges
mod Tests
use cron_agent_dashboard.Prelude.{
  ℕ, zero, suc, ◌+◌, ◌-◌, ◌*◌, Bool, true, false, not, ◌&&◌, Option, none, some, List, [], ◌∷◌,
  ◌++◌, Text, units, text_eq, is_empty, length, coalesce, or_default, text_or_empty, truthy, trim,
  if◌then◌else◌, starts_with, decimal, ltb,
}
use cron_agent_dashboard.Prelude.Int.{ℤ, ◌-ℤ◌, pos}
use cron_agent_dashboard.Prelude.Sort.{Collation, sort_by}
use cron_agent_dashboard.Api.Records.{Issue, Run, issue_status_text}
use cron_agent_dashboard.Labels.{get_trigger_label}

pub record Node : Type 0 where
  pub id : Text
  pub label : Text
  pub x : ℤ
  pub y : ℕ
  pub class_name : Text

pub record Edge : Type 0 where
  pub id : Text
  pub source : Text
  pub target : Text
  pub animated : Bool

pub record Graph : Type 0 where
  pub nodes : List Node
  pub edges : List Edge

module _ (lower : Text → Text) where
  pub normalize_agent_name : Option Text → Text
  unfolding trim
  normalize_agent_name name = lower (trim (text_or_empty name))

unfoldable pub graph_node : Text → Text → ℤ → ℕ → Text → Node
graph_node id label x y kind = record {
  id = id;
  label = label;
  x = x;
  y = y;
  class_name = units "flow-node flow-node-" ++ kind;
}

unfoldable pub graph_edge : Text → Text → Text → Edge
unfolding starts_with
graph_edge source target id = record {
  id = id;
  source = source;
  target = target;
  animated = starts_with (units "run-") target;
}

abbrev pub issue_node_id : Issue → Text
issue_node_id issue = units "issue-" ++ issue.id

abbrev pub sub_node_id : Issue → Text
sub_node_id sub = units "subissue-" ++ sub.id

abbrev pub run_node_id : Text → Text
run_node_id id = units "run-" ++ id

abbrev newline : Text
newline = 10 ∷ []

abbrev column : ℕ → ℕ → ℤ
column index count = pos (220 * index) -ℤ pos (110 * (count - 1))

-- `count` is the length of the list, and `index` the place of its head.
unfoldable pub sub_nodes : ℕ → ℕ → List Issue → List Node
unfolding graph_node
sub_nodes count index [] = []
sub_nodes count index (sub ∷ subs) =
    graph_node (sub_node_id sub) (sub.identifier ++ (newline ++ sub.title)) (column index count) 150
      (units "issue-" ++ issue_status_text sub.status)
    ∷ sub_nodes count (suc index) subs

unfoldable pub sub_edges : Issue → List Issue → List Edge
unfolding graph_edge
sub_edges issue [] = []
sub_edges issue (sub ∷ subs) =
    graph_edge (issue_node_id issue) (sub_node_id sub) (units "edge-sub-" ++ sub.id)
    ∷ sub_edges issue subs

abbrev depth_suffix : Option ℕ → Text
depth_suffix none = []
depth_suffix (some depth) = units " · d=" ++ decimal depth

abbrev pub enqueued_le : Collation → Run → Run → Bool
enqueued_le loc a b = loc.le (text_or_empty a.enqueued_at) (text_or_empty b.enqueued_at)

-- `mainAgentKey !== '' && normalizeAgentName(run.agent_name) === mainAgentKey`
abbrev pub is_hub : (Text → Text) → Text → Run → Bool
is_hub lower main_key run =
    not (is_empty main_key) && text_eq (normalize_agent_name lower run.agent_name) main_key

unfoldable pub run_nodes : (Text → Text) → Text → ℕ → ℕ → ℕ → List Run → List Node
unfolding graph_node decimal
run_nodes lower main_key y count index [] = []
run_nodes lower main_key y count index (run ∷ runs) =
    let hub = is_hub lower main_key run in
    let label =
      units "@"
      ++ (or_default run.agent_name (units "-")
          ++ ((if hub then units " · hub" else [])
              ++ (newline
                  ++ (run.status
                      ++ (units " · "
                          ++ (get_trigger_label run.trigger_type
                              ++ depth_suffix run.chain_depth)))))) in
    let kind = units "run-" ++ (run.status ++ (if hub then units " run-hub" else [])) in
    graph_node (run_node_id run.id) label (column index count) y kind
    ∷ run_nodes lower main_key y count (suc index) runs

-- `run.parent_run_id ? run-… : issue-…`
abbrev pub parent_node_id : Issue → Option Text → Text
parent_node_id issue none = issue_node_id issue
parent_node_id issue (some []) = issue_node_id issue
parent_node_id issue (some (c ∷ id)) = run_node_id (c ∷ id)

unfoldable pub run_edges : Issue → List Run → List Edge
unfolding graph_edge
run_edges issue [] = []
run_edges issue (run ∷ runs) =
    graph_edge (parent_node_id issue run.parent_run_id) (run_node_id run.id)
      (units "edge-run-" ++ run.id)
    ∷ run_edges issue runs

unfoldable pub build_issue_flow_graph :
    (Text → Text) → Collation → Issue → List Issue → List Run → Option Text → Graph
unfolding sub_nodes sub_edges run_nodes run_edges graph_node normalize_agent_name
build_issue_flow_graph lower loc issue subs runs main_agent_name =
    let main_key = normalize_agent_name lower main_agent_name in
    let sorted = sort_by (enqueued_le loc) runs in
    let y = if ltb 0 (length subs) then 330 else 160 in
    record {
      nodes =
          graph_node (issue_node_id issue) (issue.identifier ++ (newline ++ issue.title)) (pos 0) 0
            (units "issue")
          ∷ (sub_nodes (length subs) 0 subs ++ run_nodes lower main_key y (length sorted) 0 sorted);
      edges = sub_edges issue subs ++ run_edges issue sorted;
    }
