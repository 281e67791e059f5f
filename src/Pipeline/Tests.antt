-- ===== src/Pipeline/Tests.antt =====
-- The strip of three runs.
use cron_agent_dashboard.Prelude.{Option, some, List, Text}
use cron_agent_dashboard.Prelude.Int.{ℤ, pos}
use cron_agent_dashboard.Prelude.Sort.{by_units}
use cron_agent_dashboard.Api.Samples.{sample_runs}
use cron_agent_dashboard.Pipeline.{Stage, stages}

-- a clock for the tests, which reads every text as the same time
abbrev same_time : Text → Option ℤ
same_time t = some (pos 0)

abbrev shown : List Stage
shown = stages same_time by_units sample_runs
