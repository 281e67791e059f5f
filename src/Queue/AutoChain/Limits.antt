-- ===== src/Queue/AutoChain/Limits.antt =====
-- What the checks of an automatic chain keep, and what they do not.
use cron_agent_dashboard.Prelude.{
  ℕ, ◌≤◌, ◌<◌, ◌≡◌, refl, ◌⊎◌, inl, inr, Bool, true, false, ◌&&◌, some, List, [], ◌∷◌, arith, Text,
  text_eq, text_eq_iff, ltb, leb, Bool-cases, All,
}
use cron_agent_dashboard.Queue.{Tables, RunRow, is_queued, count}
use cron_agent_dashboard.Queue.AutoChain.{
  AutoChainConfig, ChainAgent, Guard, passes, depth_reached, dry_run_only, run_limit_reached,
  cost_limit_reached, already_queued, already_visited, is_pass, objection, of_agent, in_chain,
  chain_of, auto_chain_run, enqueue_auto_chain_mention, normalize_auto_chain_max_depth,
  check_auto_chain_guards, check_auto_chain_dispatch_duplicates, first_objection,
}

-- A run of this agent on this issue, in this chain
abbrev pub visits : Text → Text → Text → RunRow → Bool
visits issue_id agent_id chain_id r = of_agent issue_id agent_id r && text_eq r.chain_id chain_id

abbrev pub queued_of : Text → Text → RunRow → Bool
queued_of issue_id agent_id r = of_agent issue_id agent_id r && is_queued r

-- No run is deeper than 20; an agent has at most one queued run on an issue; and an agent that is not a main one
-- has at most one run in a chain on an issue.
pub record IsLimited (is_main : Text → Bool) (runs : List RunRow) : Type 0 where
  pub shallow : All (λ r. r.chain_depth ≤ 20) runs
  pub one_queued : (issue_id agent_id : Text) → count (queued_of issue_id agent_id) runs ≤ 1
  pub one_visit :
      (issue_id agent_id chain_id : Text)
      → (is_main agent_id ≡ true) ⊎ (count (visits issue_id agent_id chain_id) runs ≤ 1)

depth_limit : (value : ℕ) → normalize_auto_chain_max_depth value ≤ 20
unfolding normalize_auto_chain_max_depth
depth_limit value = ground arith

both_pass :
    (a b : Guard) → is_pass (first_objection a b) ≡ true → (is_pass a ≡ true) × (is_pass b ≡ true)
both_pass passes b h = (refl, h)
both_pass depth_reached b h = absurd (ground (arith, h))
both_pass dry_run_only b h = absurd (ground (arith, h))
both_pass run_limit_reached b h = absurd (ground (arith, h))
both_pass cost_limit_reached b h = absurd (ground (arith, h))
both_pass already_queued b h = absurd (ground (arith, h))
both_pass already_visited b h = absurd (ground (arith, h))

-- The runs of the agent in the chain, by the check
abbrev revisits : RunRow → ChainAgent → List RunRow → ℕ
revisits run agent runs =
    count (λ r. of_agent run.issue_id agent.id r && in_chain (chain_of run) r) runs

guards_pass :
    (t : Tables) (cfg : AutoChainConfig) (since : Text) (run : RunRow) (agent : ChainAgent)
    (runs : List RunRow)
    → is_pass (check_auto_chain_guards t cfg since run agent runs) ≡ true
    → (agent.is_main ≡ true) ⊎ (run.chain_depth < 20)
unfolding check_auto_chain_guards
guards_pass t cfg since run agent runs h = elim (Bool-cases agent.is_main) [
  | inl m ↦ inl m
  | inr m ↦
      let limit = depth_limit cfg.max_depth in
      elim (Bool-cases (leb (normalize_auto_chain_max_depth cfg.max_depth) run.chain_depth)) [
        | inl e ↦ absurd (ground (arith, h, m, e))
        | inr e ↦ inr (ground (arith, e, limit))
      ]
]

duplicates_pass :
    (run : RunRow) (agent : ChainAgent) (runs : List RunRow)
    → is_pass (check_auto_chain_dispatch_duplicates run agent (chain_of run) runs) ≡ true
    → (count (queued_of run.issue_id agent.id) runs ≡ 0)
      × ((agent.is_main ≡ true) ⊎ (revisits run agent runs ≡ 0))
unfolding check_auto_chain_dispatch_duplicates
duplicates_pass run agent runs h =
    elim (Bool-cases (ltb 0 (count (queued_of run.issue_id agent.id) runs))) [
      | inl q ↦ absurd (ground (arith, h, q))
      | inr q ↦ (
        ground (arith, q),
        elim (Bool-cases agent.is_main) [
          | inl m ↦ inl m
          | inr m ↦ elim (Bool-cases (ltb 0 (revisits run agent runs))) [
            | inl v ↦ absurd (ground (arith, h, q, m, v))
            | inr v ↦ inr (ground (arith, v))
          ]
        ],
      )
    ]

visits-within :
    (i a c : Text) (runs : List RunRow)
    → count (visits i a c) runs ≤ count (λ r. of_agent i a r && in_chain c r) runs
visits-within i a c [] = omega arith
visits-within i a c (r ∷ rs) = ground (arith, visits-within i a c rs)

-- A new row of a kind that no row was of before
count-fresh :
    (p : RunRow → Bool) (r : RunRow) (runs : List RunRow)
    → count p runs ≤ 1
    → (p r ≡ false) ⊎ (count p runs ≡ 0)
    → count p (r ∷ runs) ≤ 1
count-fresh p r runs h (inl e) = ground (arith, h, e)
count-fresh p r runs h (inr e) = ground (arith, e)

queued_apart :
    (run : RunRow) (agent : ChainAgent) (next_id at : Text) (n : ℕ) (runs : List RunRow)
    (i a : Text)
    → count (queued_of run.issue_id agent.id) runs ≡ 0
    → (queued_of i a (auto_chain_run run agent next_id at n) ≡ false)
      ⊎ (count (queued_of i a) runs ≡ 0)
unfolding auto_chain_run
queued_apart run agent next_id at n runs i a h =
    elim (Bool-cases (text_eq run.issue_id i && text_eq agent.id a)) [
      | inl e ↦
          let same_issue : run.issue_id ≡ i = ground (arith, e, text_eq_iff run.issue_id i) in
          let same_agent : agent.id ≡ a = ground (arith, e, text_eq_iff agent.id a) in
          inr (rw (← same_issue, ← same_agent) h)
      | inr e ↦ inl (ground (arith, e))
    ]

visit_apart :
    (run : RunRow) (agent : ChainAgent) (next_id at : Text) (n : ℕ) (runs : List RunRow)
    (i a c : Text)
    → revisits run agent runs ≡ 0
    → (visits i a c (auto_chain_run run agent next_id at n) ≡ false)
      ⊎ (count (visits i a c) runs ≡ 0)
unfolding auto_chain_run
visit_apart run agent next_id at n runs i a c h =
    elim (Bool-cases (text_eq run.issue_id i && text_eq agent.id a && text_eq (chain_of run) c)) [
      | inl e ↦
          let same_issue : run.issue_id ≡ i = ground (arith, e, text_eq_iff run.issue_id i) in
          let same_agent : agent.id ≡ a = ground (arith, e, text_eq_iff agent.id a) in
          let same_chain : chain_of run ≡ c = ground (arith, e, text_eq_iff (chain_of run) c) in
          let none_here : count (visits run.issue_id agent.id (chain_of run)) runs ≡ 0 =
            omega (arith, h, visits-within run.issue_id agent.id (chain_of run) runs) in
          inr (rw (← same_issue, ← same_agent, ← same_chain) none_here)
      | inr e ↦ inl (ground (arith, e))
    ]

dispatch-IsLimited :
    (is_main : Text → Bool) (run : RunRow) (agent : ChainAgent) (next_id at : Text) (n : ℕ)
    (runs : List RunRow)
    → is_main agent.id ≡ agent.is_main
    → run.chain_depth ≤ 20
    → (agent.is_main ≡ true) ⊎ (run.chain_depth < 20)
    → count (queued_of run.issue_id agent.id) runs ≡ 0
    → (agent.is_main ≡ true) ⊎ (revisits run agent runs ≡ 0)
    → IsLimited is_main runs
    → IsLimited is_main (auto_chain_run run agent next_id at n ∷ runs)
unfolding auto_chain_run
dispatch-IsLimited is_main run agent next_id at n runs same deep low q m v = record {
  shallow = (ground (arith, deep, low), v.shallow);
  one_queued = λ i a.
      count-fresh (queued_of i a) (auto_chain_run run agent next_id at n) runs (v.one_queued i a)
        (queued_apart run agent next_id at n runs i a q);
  one_visit = λ i a c. elim m [
    | inr z ↦ elim (v.one_visit i a c) [
      | inl k ↦ inl k
      | inr k ↦ inr (
          count-fresh (visits i a c) (auto_chain_run run agent next_id at n) runs k
            (visit_apart run agent next_id at n runs i a c z))
    ]
    | inl k ↦ elim (Bool-cases (text_eq agent.id a)) [
      | inl e ↦ let here : agent.id ≡ a = (text_eq_iff agent.id a).0 e in inl (rw (← here, same) k)
      | inr e ↦ elim (v.one_visit i a c) [
        | inl w ↦ inl w
        | inr w ↦ inr (
            count-fresh (visits i a c) (auto_chain_run run agent next_id at n) runs w
              (inl (ground (arith, e))))
      ]
    ]
  ];
}

-- Let no run be deeper than 20, an agent have at most one queued run on an issue, and an agent that is not a
-- main one at most one run in a chain on an issue. All of this still holds after the result of one of the runs
-- was dealt with that mentions an agent, whatever the policy of the workspace says.
pub enqueue_auto_chain_mention-IsLimited :
    (is_main : Text → Bool) (t : Tables) (cfg : AutoChainConfig) (since : Text) (run : RunRow)
    (agent : ChainAgent) (next_id at : Text) (n : ℕ) (runs : List RunRow)
    → is_main agent.id ≡ agent.is_main
    → run.chain_depth ≤ 20
    → IsLimited is_main runs
    → IsLimited is_main
        (enqueue_auto_chain_mention t cfg since run (some agent) next_id at n runs).0
unfolding enqueue_auto_chain_mention objection
enqueue_auto_chain_mention-IsLimited is_main t cfg since run agent next_id at n runs same deep v =
    elim (Bool-cases (cfg.enabled && is_pass (objection t cfg since run agent runs))) [
      | inr e ↦ rw (e, enqueue_auto_chain_mention) v
      | inl e ↦
          let both =
            both_pass (check_auto_chain_guards t cfg since run agent runs)
              (check_auto_chain_dispatch_duplicates run agent (chain_of run) runs)
              (ground (arith, e)) in
          let d = duplicates_pass run agent runs both.1 in
          rw (e, enqueue_auto_chain_mention)
            (dispatch-IsLimited is_main run agent next_id at n runs same deep
              (guards_pass t cfg since run agent runs both.0) d.0 d.1 v)
    ]
