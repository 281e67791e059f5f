-- ===== src/Widgets/Tests.antt =====
-- A runtime that is listed, and an error without a text.
use cron_agent_dashboard.Prelude.{none, List, [], ◌∷◌, Text, units}
use cron_agent_dashboard.Api.Responses.{AvailableRuntime}

-- a lower case for the tests, which leaves a text as it is
abbrev same_case : Text → Text
same_case t = t

abbrev listed : List AvailableRuntime
listed =
    record {
      name = units "codex";
      version = units "1.0";
      path = units "/bin/codex";
      supported = none;
      warning = none;
    }
    ∷ []
