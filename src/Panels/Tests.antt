-- ===== src/Panels/Tests.antt =====
-- The panels over three runs, two agents and one chain.
use cron_agent_dashboard.Api.Queries.{
  KeyPart, word, number, absent, runs_query, comments_query, workspace_issue_query,
}
use cron_agent_dashboard.Panels.{invalidate_after_action}
use cron_agent_dashboard.Panels.Invalidation.{
  is_read_again, invalidate_after_action-workspace_issue_query,
}
use cron_agent_dashboard.Prelude.{
  ◌≡◌, refl, ◌↔◌, ◌&&◌, ◌++◌, ◌==◌, arith, text_eq, text_eq_iff, true, Bool, Option, none, some,
  List, [], ◌∷◌, Text, units, false,
}
use cron_agent_dashboard.Api.Records.{AgentActivity}
use cron_agent_dashboard.Api.Samples.{sample_run}
use cron_agent_dashboard.Chains.{ChainSummary, empty_summary, add_run}

abbrev activity_of : Text → Option Text → AgentActivity
activity_of name status = record {
  agent_id = name;
  agent_name = name;
  runtime = [];
  is_main = false;
  latest_run_id = none;
  latest_run_status = status;
  latest_run_finished_at = none;
  latest_run_enqueued_at = none;
  latest_issue_id = none;
  latest_issue_identifier = none;
}

abbrev two_agents : List AgentActivity
two_agents = activity_of (units "qa") none ∷ activity_of (units "db") (some (units "running")) ∷ []

abbrev chain : ChainSummary
chain = add_run (sample_run (units "r1") (units "done") [] []) (empty_summary (units "c1"))

-- the parts of a key that are equal, for the tests
abbrev same_part : KeyPart → KeyPart → Bool
same_part (word s) (word t) = text_eq s t
same_part (number m) (number n) = m == n
same_part absent absent = true
same_part _ _ = false

abbrev is_prefix : List KeyPart → List KeyPart → Bool
is_prefix [] key = true
is_prefix (p ∷ ps) [] = false
is_prefix (p ∷ ps) (k ∷ ks) = same_part p k && is_prefix ps ks

same_part_iff : (p k : KeyPart) → (same_part p k ≡ true) ↔ (p ≡ k)
same_part_iff (word s) (word t) = ground (arith, text_eq_iff s t)
same_part_iff (word s) (number n) = ground arith
same_part_iff (word s) absent = ground arith
same_part_iff (number m) (word t) = ground arith
same_part_iff (number m) (number n) = ground arith
same_part_iff (number m) absent = ground arith
same_part_iff absent (word t) = ground arith
same_part_iff absent (number n) = ground arith
same_part_iff absent absent = ground arith

is_prefix_begins :
    (p key : List KeyPart) → (is_prefix p key ≡ true) ↔ ((rest : List KeyPart) × (key ≡ p ++ rest))
is_prefix_begins [] key = (λ h. (key, refl), λ h. refl)
is_prefix_begins (p ∷ ps) [] = (λ h. cc, λ h. let (rest, same) = h in absurd (ground (arith, same)))
is_prefix_begins (p ∷ ps) (k ∷ ks) = (
  λ h.
      let (rest, same) = (is_prefix_begins ps ks).0 (ground (arith, h)) in
      let first : p ≡ k = (same_part_iff p k).0 (ground (arith, h)) in
      (rest, ground (arith, first, same)),
  λ h.
      let (rest, same) = h in
      let first : p ≡ k = ground (arith, same) in
      let others : ks ≡ ps ++ rest = ground (arith, same) in
      ground (arith, (same_part_iff p k).1 first, (is_prefix_begins ps ks).1 (rest, others)),
)

abbrev acted : List (List KeyPart)
acted = invalidate_after_action (some (units "i1")) (some (units "w"))

invalidate_after_action-workspace_issue_query_example :
    (is_read_again is_prefix is_prefix_begins acted (runs_query (some (units "i1")) none).key
      ≡ true)
    × (is_read_again is_prefix is_prefix_begins acted (comments_query (some (units "i1")) none).key
        ≡ true)
    × ((is_read_again is_prefix is_prefix_begins acted
            (workspace_issue_query none (some (units "w")) (some (units "A-1"))).key
          ≡ true)
        ↔ (some (units "w") ≡ some (units "i1")))
invalidate_after_action-workspace_issue_query_example =
    invalidate_after_action-workspace_issue_query is_prefix is_prefix_begins (units "i1")
      (some (units "w")) none none (some (units "w")) (some (units "A-1")) (λ e. cc)
