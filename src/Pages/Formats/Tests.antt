-- ===== src/Pages/Formats/Tests.antt =====
-- Runs of the formats at concrete inputs.
use cron_agent_dashboard.Prelude.{◌≡◌, refl}
use cron_agent_dashboard.Prelude.Int.{pos, ◌-ℤ◌}
use cron_agent_dashboard.Pages.Formats.{relative_time_of, round_to, minute}
use cron_agent_dashboard.Pages.Formats.Bounds.{IsShown, relative_time_of-IsShown}

ninety_seconds : relative_time_of (pos 90000) (pos 0) ≡ (pos 2, minute)
unfolding relative_time_of round_to ◌-ℤ◌
ninety_seconds = refl

relative_time_of-IsShown_example :
    IsShown (relative_time_of (pos 90000) (pos 0)).0 (relative_time_of (pos 90000) (pos 0)).1
relative_time_of-IsShown_example = relative_time_of-IsShown (pos 90000) (pos 0)
