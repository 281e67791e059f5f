-- ===== src/Toasts/Tests.antt =====
-- Six toasts, of which the first is pushed out.
use cron_agent_dashboard.Prelude.{none, List, [], ◌∷◌, units}
use cron_agent_dashboard.Toasts.{ToastInput, ToastTone, Change, show, dismiss, changes}
use cron_agent_dashboard.Toasts.Bounded.{changes-IsValid, IsValid}

abbrev plain_input : ToastInput
plain_input = record {
  id = none;
  tone = ToastTone.info;
  title = units "saved";
  description = none;
  action = none;
  duration_ms = none;
}

abbrev six_changes : List Change
six_changes =
    show plain_input (units "1")
    ∷ show plain_input (units "2")
    ∷ show plain_input (units "3")
    ∷ show plain_input (units "4")
    ∷ dismiss (units "2")
    ∷ show plain_input (units "3")
    ∷ []

changes-IsValid_example : IsValid (changes [] six_changes)
changes-IsValid_example = changes-IsValid six_changes
