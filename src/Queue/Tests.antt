-- ===== src/Queue/Tests.antt =====
-- Runs of the queue at concrete inputs.
use cron_agent_dashboard.Prelude.{
  is_space, ◌≤◌, ◌≡◌, refl, true, false, none, some, List, [], ◌∷◌, arith, Text, units, text_eq,
  inr, Bool, ◌<◌, map, sum_by,
}
use cron_agent_dashboard.Prelude.Sort.{unit_le, sort_by, insert_by}
use cron_agent_dashboard.Queue.{
  FinishRunInput, cancel_run, recover_run_stdout_path, trim_space_start, trim_space_end, Tables,
  RunRow, RunStatus, claim_next_run, complete_run, claimed_first, next_run, count, reschedule_row,
  reschedule_run, should_retry_run,
}
use cron_agent_dashboard.Queue.AutoChain.{
  AutoChainConfig, ChainAgent, enqueue_auto_chain_mention, objection, check_auto_chain_guards,
  auto_chain_within_daily_guards, check_auto_chain_dispatch_duplicates,
  normalize_auto_chain_max_depth,
}
use cron_agent_dashboard.Queue.AutoChain.Limits.{IsLimited, enqueue_auto_chain_mention-IsLimited}
use cron_agent_dashboard.Queue.AutoChain.Reentry.{IsNext, enqueue_auto_chain_mention_main}
use cron_agent_dashboard.Queue.Retries.{attempts_left, reschedule_run-attempts_left}
use cron_agent_dashboard.Queue.Steps.{
  Reachable, began, by_step, enqueues, claims, completes, IsValid, Reachable-IsValid,
}
use cron_agent_dashboard.Queue.Ended.{Step-keeps_ended, ended_of}
use cron_agent_dashboard.Queue.Eligible.{IsClaimable}
use cron_agent_dashboard.Queue.Order.{IsFirst, next_run-IsFirst, claimed_first-trimmed}

abbrev one_workspace : Tables
one_workspace = record {
  workspace_of = λ issue_id. units "w";
  per_run_worktree = λ workspace_id. false;
}

abbrev queued_at : Text → Text → Text → RunRow
queued_at id issue_id at = record {
  id = id;
  issue_id = issue_id;
  agent_id = units "a";
  status = RunStatus.queued;
  chain_id = id;
  parent_run_id = none;
  chain_depth = 0;
  enqueued_at = at;
  next_retry_at = none;
  finished_at = none;
  stdout_path = none;
  total_cost_micros = 0;
  attempt = 1;
  max_attempts = 1;
}

abbrev first : RunRow
first = queued_at (units "r1") (units "i1") (units "00.1Z")

abbrev second : RunRow
second = queued_at (units "r2") (units "i2") (units "00.12Z")

abbrev both : List RunRow
both = second ∷ first ∷ []

abbrev claimed : List RunRow
claimed = (claim_next_run one_workspace (units "01Z") both).0

claims_later_digits : next_run one_workspace (units "01Z") both ≡ some second
unfolding next_run sort_by insert_by unit_le text_eq
claims_later_digits = refl

claims_one_at_a_time : next_run one_workspace (units "01Z") claimed ≡ none
unfolding claim_next_run next_run sort_by insert_by unit_le text_eq
claims_one_at_a_time = refl

both-Reachable : Reachable one_workspace both
unfolding text_eq
both-Reachable =
    by_step (by_step began (enqueues first [] refl refl)) (enqueues second (first ∷ []) refl refl)

Reachable-IsValid_example : IsValid one_workspace claimed
Reachable-IsValid_example = Reachable-IsValid (by_step both-Reachable (claims (units "01Z") both))

abbrev succeeds : FinishRunInput
succeeds = record { succeeded = true; stdout_path = units " log "; total_cost_micros = 7 }

abbrev cancelled : List RunRow
cancelled = cancel_run (units "r2") (units "02Z") claimed

-- Another path cancelled the run before it is completed: it only gets the path of its output.
completes_too_late :
    complete_run (units "r2") succeeds (units "03Z") cancelled
    ≡ record second {
      status = RunStatus.cancelled;
      finished_at = some (units "02Z");
      stdout_path = some (units "log");
    }
      ∷ first
      ∷ []
unfolding complete_run recover_run_stdout_path trim_space_start trim_space_end is_space cancel_run
    claim_next_run next_run sort_by insert_by unit_le text_eq
completes_too_late = refl

Step-keeps_ended_example :
    count (ended_of (λ r. text_eq r.id (units "r2"))) cancelled
    ≤ count
        (ended_of (λ r. text_eq r.id (units "r2")))
        (complete_run (units "r2") succeeds (units "03Z") cancelled)
Step-keeps_ended_example =
    Step-keeps_ended {t = one_workspace} (λ r. text_eq r.id (units "r2")) (λ r path h k. k)
      (completes (units "r2") succeeds (units "03Z") cancelled)

next_run-IsFirst_example :
    IsFirst
      (IsClaimable one_workspace (units "01Z") both)
      both
      (next_run one_workspace (units "01Z") both)
next_run-IsFirst_example = next_run-IsFirst one_workspace (units "01Z") both

claimed_first-trimmed_example : claimed_first first second ≡ false
claimed_first-trimmed_example =
    claimed_first-trimmed first second (units "00.1") 0x32 (units "Z") refl refl (omega arith)

abbrev hub : ChainAgent
hub = record { id = units "a"; name = units "lead"; is_main = true }

abbrev worker : ChainAgent
worker = record { id = units "b"; name = units "qa"; is_main = false }

abbrev chaining : AutoChainConfig
chaining = record {
  workspace_id = units "w";
  enabled = true;
  max_depth = 1;
  daily_run_limit = 1;
  daily_cost_micros = 0;
  dry_run = false;
}

abbrev ended : RunRow
ended = record first { status = RunStatus.done }

enqueue_auto_chain_mention_main_example :
    (r : RunRow) × (enqueue_auto_chain_mention one_workspace chaining [] ended
        (some hub)
        (units "r3")
        (units "02Z")
        1
        (ended ∷ [])
      ≡ (r ∷ ended ∷ [], true))
    × IsNext ended hub (units "r3") r
unfolding text_eq
enqueue_auto_chain_mention_main_example =
    enqueue_auto_chain_mention_main one_workspace chaining [] ended hub (units "r3") (units "02Z") 1
      (ended ∷ []) refl refl refl refl refl (refl, tt) refl

abbrev is_main_agent : Text → Bool
is_main_agent id = text_eq id (units "a")

no_runs-IsLimited : IsLimited is_main_agent []
no_runs-IsLimited = record {
  shallow = tt;
  one_queued = λ i a. omega arith;
  one_visit = λ i a c. inr (omega arith);
}

enqueue_auto_chain_mention-IsLimited_example :
    IsLimited is_main_agent
      (enqueue_auto_chain_mention one_workspace chaining [] ended
        (some worker)
        (units "r3")
        (units "02Z")
        1
        []).0
unfolding text_eq
enqueue_auto_chain_mention-IsLimited_example =
    enqueue_auto_chain_mention-IsLimited is_main_agent one_workspace chaining [] ended worker
      (units "r3") (units "02Z") 1 [] refl (omega arith) no_runs-IsLimited

queues_worker :
    (enqueue_auto_chain_mention one_workspace chaining [] ended
      (some worker)
      (units "r3")
      (units "02Z")
      1
      []).1
    ≡ true
unfolding enqueue_auto_chain_mention objection check_auto_chain_guards
    auto_chain_within_daily_guards check_auto_chain_dispatch_duplicates
    normalize_auto_chain_max_depth
queues_worker = refl

abbrev running_twice : RunRow
running_twice = record first { status = RunStatus.running; max_attempts = 2 }

abbrev rescheduled : List RunRow
rescheduled = map (reschedule_row (units "r1") (units "05Z") []) (running_twice ∷ [])

reschedules_twice :
    reschedule_run none (units "timeout") (units "05Z") [] running_twice (running_twice ∷ [])
    ≡ some rescheduled
unfolding reschedule_run should_retry_run text_eq
reschedules_twice = refl

reschedule_run-attempts_left_example :
    sum_by attempts_left rescheduled < sum_by attempts_left (running_twice ∷ [])
reschedule_run-attempts_left_example =
    reschedule_run-attempts_left none (units "timeout") (units "05Z") [] running_twice [] []
      rescheduled reschedules_twice
