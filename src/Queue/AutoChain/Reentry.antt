-- ===== src/Queue/AutoChain/Reentry.antt =====
-- A main agent that mentions itself.
use cron_agent_dashboard.Prelude.{
  ◌⊎◌, inl, inr, is_empty, if◌then◌else◌, ℕ, ◌≡◌, refl, true, false, ◌&&◌, some, List, [], ◌∷◌,
  arith, Text, All,
}
use cron_agent_dashboard.Queue.{RunStatus, Tables, RunRow, count, is_queued}
use cron_agent_dashboard.Queue.AutoChain.{
  AutoChainConfig, ChainAgent, passes, objection, of_agent, counts_today,
  auto_chain_within_daily_guards, check_auto_chain_guards, check_auto_chain_dispatch_duplicates,
  auto_chain_run, enqueue_auto_chain_mention,
}

abbrev pub IsFlat : List RunRow → Type 0
IsFlat = All (λ r. r.chain_depth ≡ 0)

none_counts :
    (t : Tables) (w since : Text) (runs : List RunRow)
    → IsFlat runs
    → count (counts_today t w since) runs ≡ 0
none_counts t w since [] h = refl
none_counts t w since (r ∷ rs) h = ground (arith, h.0, none_counts t w since rs h.1)

flat_guards :
    (t : Tables) (cfg : AutoChainConfig) (since : Text) (run : RunRow) (agent : ChainAgent)
    (runs : List RunRow)
    → agent.is_main ≡ true
    → cfg.dry_run ≡ false
    → cfg.daily_cost_micros ≡ 0
    → IsFlat runs
    → check_auto_chain_guards t cfg since run agent runs ≡ passes
unfolding check_auto_chain_guards auto_chain_within_daily_guards
flat_guards t cfg since run agent runs m d c h =
    ground (arith, m, d, c, none_counts t cfg.workspace_id since runs h)

-- The run is a new one of the agent, queued on the issue of a run and in its chain.
pub record IsNext (run : RunRow) (agent : ChainAgent) (next_id : Text) (r : RunRow) : Type 0 where
  pub id : r.id ≡ next_id
  pub on_issue : r.issue_id ≡ run.issue_id
  pub of_agent : r.agent_id ≡ agent.id
  pub queued : r.status ≡ RunStatus.queued
  pub in_chain : (run.chain_id ≡ []) ⊎ (r.chain_id ≡ run.chain_id)
  pub after : r.parent_run_id ≡ some run.id
  pub flat : r.chain_depth ≡ 0

-- Let no run of the tables have a depth, an agent be a main one that has no queued run on the issue, and the
-- workspace chain runs without a limit on their cost. However small its limits on the depth and on the runs of a
-- day are, a result that mentions the agent puts one more run into the table and changes no other: a queued run of
-- the agent on the same issue and, where the run that ended names one, in the same chain, and again without a depth.
pub enqueue_auto_chain_mention_main :
    (t : Tables) (cfg : AutoChainConfig) (since : Text) (run : RunRow) (agent : ChainAgent)
    (next_id at : Text) (n : ℕ) (runs : List RunRow)
    → agent.is_main ≡ true
    → cfg.enabled ≡ true
    → cfg.dry_run ≡ false
    → cfg.daily_cost_micros ≡ 0
    → run.chain_depth ≡ 0
    → IsFlat runs
    → count (λ r. of_agent run.issue_id agent.id r && is_queued r) runs ≡ 0
    → (r : RunRow) × (enqueue_auto_chain_mention t cfg since run (some agent) next_id at n runs
        ≡ (r ∷ runs, true))
      × IsNext run agent next_id r
unfolding enqueue_auto_chain_mention objection auto_chain_run check_auto_chain_dispatch_duplicates
enqueue_auto_chain_mention_main t cfg since run agent next_id at n runs m e d c z h q =
    let clear : objection t cfg since run agent runs ≡ passes =
      rw (flat_guards t cfg since run agent runs m d c h) (ground (arith, m, q)) in
    (
      auto_chain_run run agent next_id at n,
      rw (clear, e) refl,
      record {
        id = refl;
        on_issue = refl;
        of_agent = refl;
        queued = refl;
        in_chain = named run.chain_id run.id;
        after = refl;
        flat = rw m z;
      },
    )
  where
    named : (c i : Text) → (c ≡ []) ⊎ ((if is_empty c then i else c) ≡ c)
    named [] i = inl refl
    named (x ∷ c) i = inr refl
