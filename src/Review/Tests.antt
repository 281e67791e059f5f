-- ===== src/Review/Tests.antt =====
-- A failed run that a later run made up for.
use cron_agent_dashboard.Prelude.{◌≡◌, refl, none, some, units, text_eq}
use cron_agent_dashboard.Api.Records.{Run}
use cron_agent_dashboard.Api.Samples.{sample_run, sample_runs, sample_issue}
use cron_agent_dashboard.Prelude.Sort.{unit_le}
use cron_agent_dashboard.Review.{Banner, review_banner, find_recovery}
use cron_agent_dashboard.Review.Recovery.{IsFound, find_recovery-IsFound}

abbrev failed_run : Run
failed_run = sample_run (units "r1") (units "failed") (units "2024-01-02") (units "c1")

find_recovery-IsFound_example :
    IsFound failed_run sample_runs (find_recovery failed_run sample_runs)
find_recovery-IsFound_example = find_recovery-IsFound failed_run sample_runs

abbrev shown : Banner
shown = record {
  last_agent = none;
  stages = 3;
  total_done = 1;
  total_failed = 1;
  recovered_count = 1;
}

is_shown : review_banner (some sample_issue) sample_runs ≡ some shown
unfolding review_banner text_eq unit_le
is_shown = refl
