-- ===== src/Pages/Autopilot/Tests.antt =====
-- Runs of the autopilot page at concrete inputs.
use cron_agent_dashboard.Prelude.{true, Option, none, some, List, [], ◌∷◌, Text, units}
use cron_agent_dashboard.Prelude.Int.{ℤ, pos}
use cron_agent_dashboard.Api.Responses.{AutopilotRule}

abbrev daily : AutopilotRule
daily = record {
  id = units "1";
  name = units "daily";
  cron_expr = units "0 9 * * *";
  issue_title_template = units "news";
  issue_body_template = [];
  assignee_agent_id = none;
  assignee_agent_name = none;
  enabled = true;
  last_run_at = none;
  next_run_at = none;
  snooze_until = some (units "later");
  last_error = none;
  consecutive_failures = 1;
  last_triggered_issue_id = none;
}

abbrev weekly : AutopilotRule
weekly = record daily { id = units "2"; name = units "weekly"; snooze_until = none }

-- `Date.parse` for the tests: every text is the time 5.
abbrev at_five : Text → Option ℤ
at_five text = some (pos 5)

abbrev both_rules : Option (List AutopilotRule)
both_rules = some (daily ∷ weekly ∷ [])
