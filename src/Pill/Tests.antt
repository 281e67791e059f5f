-- ===== src/Pill/Tests.antt =====
-- The segment of a status with a space, capitals and a dash at its end.
use cron_agent_dashboard.Prelude.{◌≡◌, refl, units, Text}
use cron_agent_dashboard.Pill.{safe_class_segment}

abbrev odd_status : Text
odd_status = units " In review!-"

safe_segment : safe_class_segment odd_status ≡ units "n-review"
unfolding safe_class_segment
safe_segment = refl
