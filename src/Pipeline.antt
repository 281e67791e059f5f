-- ===== src/Pipeline.antt =====
-- web/src/components/AgentPipelineStrip.tsx: the stages of an issue's runs. `Date.parse` belongs to
-- the host: `time` gives the milliseconds of a text, none where it is no date.
pub mod Stages
mod Tests
use cron_agent_dashboard.Prelude.{
  ℕ, zero, suc, ◌+◌, ◌-◌, ◌*◌, ◌/◌, ◌%◌, Bool, true, false, not, Option, none, some, List, [], ◌∷◌,
  ◌++◌, Text, units, text_eq, filter, length, coalesce, or_text, or_default, truthy, if◌then◌else◌,
  ltb, leb, sum_by, decimal,
}
use cron_agent_dashboard.Prelude.Int.{ℤ, ◌-ℤ◌, pos, negsuc}
use cron_agent_dashboard.Prelude.Sort.{Collation, sort_by}
use cron_agent_dashboard.Api.Records.{Run}

pub data State : Type 0 where
  done running queued failed cancelled retrying : State

pub record Stage : Type 0 where
  pub index : ℕ
  pub run : Run
  pub state : State
  pub duration_ms : Option ℕ

-- `stateOf`; a status that is none of the five counts as queued
unfoldable pub state_of : Run → State
state_of run =
    if text_eq run.status (units "done")
    then done
    else if text_eq run.status (units "failed")
    then failed
    else if text_eq run.status (units "cancelled")
    then cancelled
    else if text_eq run.status (units "running")
    then running
    else if text_eq run.status (units "queued")
    then if truthy run.next_retry_at then retrying else queued
    else queued

-- a number of milliseconds that is not negative
abbrev nonnegative : ℤ → Option ℕ
nonnegative (pos n) = some n
nonnegative (negsuc n) = none

abbrev elapsed : Option ℤ → Option ℤ → Option ℕ
elapsed none b = none
elapsed (some a) none = none
elapsed (some a) (some b) = nonnegative (b -ℤ a)

abbrev elapsed_between : (Text → Option ℤ) → Option Text → Option Text → Option ℕ
elapsed_between time (some (c ∷ s)) (some (d ∷ t)) = elapsed (time (c ∷ s)) (time (d ∷ t))
elapsed_between time _ _ = none

unfoldable pub duration_of : (Text → Option ℤ) → Run → Option ℕ
unfolding ◌-ℤ◌
duration_of time run =
    elapsed_between time (or_text run.started_at (or_text run.claimed_at run.enqueued_at))
      run.finished_at

-- `Math.round(ms / 1000)`
abbrev pub round_seconds : ℕ → ℕ
round_seconds ms = (ms + 500) / 1000

unfoldable pub format_duration : Option ℕ → Text
unfolding decimal
format_duration none = []
format_duration (some ms) =
    let s = round_seconds ms in
    if ltb s 60
    then decimal s ++ units "s"
    else decimal (s / 60) ++ (units "m " ++ (decimal (s % 60) ++ units "s"))

-- `a.enqueued_at || a.claimed_at || a.started_at || ''`
abbrev pub sort_key : Run → Text
sort_key run = or_default (or_text run.enqueued_at (or_text run.claimed_at run.started_at)) []

abbrev pub sort_le : Collation → Run → Run → Bool
sort_le loc a b = loc.le (sort_key a) (sort_key b)

pub number_stages : (Text → Option ℤ) → ℕ → List Run → List Stage
number_stages time i [] = []
number_stages time i (run ∷ rest) =
    record { index = i; run = run; state = state_of run; duration_ms = duration_of time run }
    ∷ number_stages time (suc i) rest

unfoldable pub stages : (Text → Option ℤ) → Collation → List Run → List Stage
unfolding number_stages state_of duration_of
stages time loc runs = number_stages time 0 (sort_by (sort_le loc) runs)

abbrev pub is_state : State → Stage → Bool
is_state done s = elim s.state [ State.done ↦ true | _ ↦ false ]
is_state running s = elim s.state [ State.running ↦ true | _ ↦ false ]
is_state queued s = elim s.state [ State.queued ↦ true | _ ↦ false ]
is_state failed s = elim s.state [ State.failed ↦ true | _ ↦ false ]
is_state cancelled s = elim s.state [ State.cancelled ↦ true | _ ↦ false ]
is_state retrying s = elim s.state [ State.retrying ↦ true | _ ↦ false ]

-- the counts and the total of the header
abbrev pub count_of : State → List Stage → ℕ
count_of st xs = length (filter (is_state st) xs)

abbrev pub total_ms : List Stage → ℕ
total_ms = sum_by (λ s. coalesce s.duration_ms 0)
