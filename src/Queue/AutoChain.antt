-- ===== src/Queue/AutoChain.antt =====
-- internal/store/auto_chain.go: whether the result of a run that mentions an agent queues a run of that agent.
-- The agent that the mention was resolved to is an argument, none where there is no mention or no such agent;
-- `since` is the instant 24 hours ago, `next_id` the new id. The numbers of the policy are not negative.
pub mod Limits
pub mod Reentry
use cron_agent_dashboard.Prelude.{
  ℕ, zero, suc, ◌+◌, ◌-◌, ◌*◌, ◌/◌, ◌%◌, ◌≤◌, ◌<◌, max, ◌≡◌, refl, sym, ap, ◌∙◌, subst, ◌≢◌, ◌↔◌,
  ◌⊎◌, inl, inr, Bool, true, false, not, ◌&&◌, ◌||◌, Option, none, some, List, [], ◌∷◌, ◌++◌, map,
  arith, Text, units, text_eq, text_eq_iff, text_eq_refl, trim, trim_start, trim_end, is_empty,
  truthy, text_or_empty, or_default, or_text, coalesce, filter, find, any, all, take, length,
  if◌then◌else◌, ltb, leb, ◌==◌, decimal, is_some, head?, Bool-cases, Option-cases, All, All-append,
  All-imp, trimmed, starts_with, sum_by,
}
use cron_agent_dashboard.Prelude.Sort.{unit_le}
use cron_agent_dashboard.Queue.{Tables, RunRow, RunStatus, is_queued, has_id, count}

pub record AutoChainConfig : Type 0 where
  pub workspace_id : Text
  pub enabled : Bool
  pub max_depth : ℕ
  pub daily_run_limit : ℕ
  pub daily_cost_micros : ℕ
  pub dry_run : Bool

pub record ChainAgent : Type 0 where
  pub id : Text
  pub name : Text
  pub is_main : Bool

unfoldable pub normalize_auto_chain_max_depth : ℕ → ℕ
normalize_auto_chain_max_depth value = if value == 0 then 5 else if ltb 20 value then 20 else value

-- Why a run is not queued, or that nothing speaks against it
pub data Guard : Type 0 where
  passes depth_reached dry_run_only run_limit_reached cost_limit_reached : Guard
  already_queued already_visited : Guard

abbrev pub counts_today : Tables → Text → Text → RunRow → Bool
counts_today t workspace_id since r =
    text_eq (t.workspace_of r.issue_id) workspace_id
    && ltb 0 r.chain_depth
    && unit_le since r.enqueued_at

abbrev pub cost_today : Tables → Text → Text → RunRow → ℕ
cost_today t workspace_id since r =
    if text_eq (t.workspace_of r.issue_id) workspace_id
      && unit_le since (coalesce r.finished_at r.enqueued_at)
    then r.total_cost_micros
    else 0

unfoldable pub auto_chain_within_daily_guards :
    Tables → AutoChainConfig → Text → List RunRow → Guard
auto_chain_within_daily_guards t cfg since runs =
    if ltb 0 cfg.daily_run_limit
      && leb cfg.daily_run_limit (count (counts_today t cfg.workspace_id since) runs)
    then run_limit_reached
    else if ltb 0 cfg.daily_cost_micros
        && leb cfg.daily_cost_micros (sum_by (cost_today t cfg.workspace_id since) runs)
    then cost_limit_reached
    else passes

unfoldable pub check_auto_chain_guards :
    Tables → AutoChainConfig → Text → RunRow → ChainAgent → List RunRow → Guard
unfolding normalize_auto_chain_max_depth auto_chain_within_daily_guards
check_auto_chain_guards t cfg since run agent runs =
    if not agent.is_main && leb (normalize_auto_chain_max_depth cfg.max_depth) run.chain_depth
    then depth_reached
    else if cfg.dry_run
    then dry_run_only
    else auto_chain_within_daily_guards t cfg since runs

-- `run.ChainID`, or the run's own id where it has none
abbrev pub chain_of : RunRow → Text
chain_of run = if is_empty run.chain_id then run.id else run.chain_id

abbrev pub of_agent : Text → Text → RunRow → Bool
of_agent issue_id agent_id r = text_eq r.issue_id issue_id && text_eq r.agent_id agent_id

abbrev pub in_chain : Text → RunRow → Bool
in_chain chain_id r = text_eq r.chain_id chain_id || text_eq r.id chain_id

unfoldable pub check_auto_chain_dispatch_duplicates :
    RunRow → ChainAgent → Text → List RunRow → Guard
check_auto_chain_dispatch_duplicates run agent chain_id runs =
    if ltb 0 (count (λ r. of_agent run.issue_id agent.id r && is_queued r) runs)
    then already_queued
    else if agent.is_main
    then passes
    else if ltb 0 (count (λ r. of_agent run.issue_id agent.id r && in_chain chain_id r) runs)
    then already_visited
    else passes

-- `INSERT INTO run`
unfoldable pub auto_chain_run : RunRow → ChainAgent → Text → Text → ℕ → RunRow
auto_chain_run run agent next_id at max_attempts = record {
  id = next_id;
  issue_id = run.issue_id;
  agent_id = agent.id;
  status = RunStatus.queued;
  chain_id = chain_of run;
  parent_run_id = some run.id;
  chain_depth = if agent.is_main then run.chain_depth else run.chain_depth + 1;
  enqueued_at = at;
  next_retry_at = none;
  finished_at = none;
  stdout_path = none;
  total_cost_micros = 0;
  attempt = 1;
  max_attempts = max_attempts;
}

-- Both checks, one after the other
abbrev pub first_objection : Guard → Guard → Guard
first_objection passes g = g
first_objection depth_reached g = depth_reached
first_objection dry_run_only g = dry_run_only
first_objection run_limit_reached g = run_limit_reached
first_objection cost_limit_reached g = cost_limit_reached
first_objection already_queued g = already_queued
first_objection already_visited g = already_visited

abbrev pub is_pass : Guard → Bool
is_pass passes = true
is_pass _ = false

unfoldable pub objection :
    Tables → AutoChainConfig → Text → RunRow → ChainAgent → List RunRow → Guard
unfolding check_auto_chain_guards check_auto_chain_dispatch_duplicates
objection t cfg since run agent runs =
    first_objection (check_auto_chain_guards t cfg since run agent runs)
      (check_auto_chain_dispatch_duplicates run agent (chain_of run) runs)

-- `enqueueAutoChainMention`: the rows after it, and whether a run was queued
unfoldable pub enqueue_auto_chain_mention :
    Tables
    → AutoChainConfig
    → Text
    → RunRow
    → Option ChainAgent
    → Text
    → Text
    → ℕ
    → List RunRow
    → List RunRow × Bool
unfolding objection auto_chain_run
enqueue_auto_chain_mention t cfg since run none next_id at max_attempts runs = (runs, false)
enqueue_auto_chain_mention t cfg since run (some agent) next_id at max_attempts runs =
    if cfg.enabled && is_pass (objection t cfg since run agent runs)
    then (auto_chain_run run agent next_id at max_attempts ∷ runs, true)
    else (runs, false)
