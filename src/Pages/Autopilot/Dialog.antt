-- ===== src/Pages/Autopilot/Dialog.antt =====
-- web/src/components/AutopilotDialog.tsx: the dialog and its form; of web/src/pages/AutopilotPage.tsx how
-- it opens and closes, the switch of a rule, and the dates. `Date.parse`, `toISOString` and the local
-- calendar are arguments.
use cron_agent_dashboard.Pages.Autopilot.{
  truthy, is_empty, ltb, not, pos, none, some, [], decimal, text_or_empty, AutopilotTemplate,
}
use cron_agent_dashboard.Pages.{
  Bool, List, Option, Text, false, true, units, Effect, invalidates, closes,
}
use cron_agent_dashboard.Prelude.{ℕ, ◌∷◌, ◌++◌, ◌*◌, ◌+◌, if◌then◌else◌}
use cron_agent_dashboard.Prelude.Int.{ℤ, ◌+ℤ◌}
use cron_agent_dashboard.Api.Responses.{AutopilotRule}
use cron_agent_dashboard.Api.Queries.{word, part, shown}

pub record AutopilotForm : Type 0 where
  pub name : Text
  pub cron_expr : Text
  pub issue_title_template : Text
  pub issue_body_template : Text
  pub assignee_agent_id : Text
  pub enabled : Bool
  pub snooze_until : Text

abbrev pub empty_form : AutopilotForm
empty_form = record {
  name = [];
  cron_expr = units "0 9 * * *";
  issue_title_template = units "{{date}} 정기 작업";
  issue_body_template = [];
  assignee_agent_id = [];
  enabled = true;
  snooze_until = [];
}

abbrev pub cron_presets : List (Text × Text)
cron_presets =
    (units "매일 오전 9시", units "0 9 * * *")
    ∷ (units "평일 오전 9시", units "0 9 * * 1-5")
    ∷ (units "매주 월요일", units "0 10 * * 1")
    ∷ (units "매월 1일", units "0 9 1 * *")
    ∷ []

-- The rule's fields as a request or a form holds them
unfoldable pub form_of_rule : AutopilotRule → AutopilotForm
form_of_rule rule = record {
  name = rule.name;
  cron_expr = rule.cron_expr;
  issue_title_template = rule.issue_title_template;
  issue_body_template = rule.issue_body_template;
  assignee_agent_id = text_or_empty rule.assignee_agent_id;
  enabled = rule.enabled;
  snooze_until = text_or_empty rule.snooze_until;
}

-- The path and the body of a request
pub data RuleRequest : Type 0 where
  puts_rule : Text → AutopilotForm → RuleRequest
  posts_rule : Text → AutopilotForm → RuleRequest

unfoldable pub toggle_rule : AutopilotRule → RuleRequest
unfolding form_of_rule
toggle_rule rule =
    RuleRequest.puts_rule (units "/autopilot/" ++ rule.id)
      (record (form_of_rule rule) { enabled = not rule.enabled })

pub record Dialog : Type 0 where
  pub opened : Bool
  pub template : Option AutopilotTemplate
  pub rule : Option AutopilotRule

unfoldable pub open_create : Option AutopilotTemplate → Dialog → Dialog
open_create template d = record { opened = true; template = template; rule = none }

unfoldable pub open_edit : AutopilotRule → Dialog → Dialog
open_edit rule d = record { opened = true; template = none; rule = some rule }

unfoldable pub close_dialog : Dialog → Dialog
close_dialog d = record { opened = false; template = none; rule = none }

-- The dialog's effect: what the form holds once the dialog has this state
unfoldable pub load_form : Dialog → AutopilotForm → AutopilotForm
unfolding form_of_rule
load_form d form = if not d.opened then form else elim d.rule [
  | some rule ↦ form_of_rule rule
  | none ↦ elim d.template [
    | none ↦ empty_form
    | some t ↦ record empty_form {
      name = t.name;
      cron_expr = t.cron_expr;
      issue_title_template = t.issue_title_template;
      issue_body_template = t.issue_body_template;
    }
  ]
]

unfoldable pub save_rule : Option Text → Dialog → AutopilotForm → RuleRequest
save_rule slug d form = elim d.rule [
  | some rule ↦ RuleRequest.puts_rule (units "/autopilot/" ++ rule.id) form
  | none ↦ RuleRequest.posts_rule (units "/workspaces/" ++ (shown slug ++ units "/autopilot")) form
]

unfoldable pub saved_rule : Option Text → List Effect
saved_rule slug = invalidates (word (units "autopilot") ∷ part slug ∷ []) ∷ closes ∷ []

pub record Calendar : Type 0 where
  pub full_year : ℕ
  pub month : ℕ
  pub date : ℕ
  pub hours : ℕ
  pub minutes : ℕ

-- `String(n).padStart(2, '0')`
abbrev pub pad : ℕ → Text
pad n = if ltb n 10 then units "0" ++ decimal n else decimal n

unfoldable pub to_date_time_local_input : (Text → Option ℤ) → (ℤ → Calendar) → Option Text → Text
to_date_time_local_input time calendar value =
    if not (truthy value) then [] else elim (time (text_or_empty value)) [
      | none ↦ []
      | some t ↦
          let d = calendar t in
          decimal d.full_year
          ++ (units "-"
              ++ (pad (d.month + 1)
                  ++ (units "-"
                      ++ (pad d.date
                          ++ (units "T" ++ (pad d.hours ++ (units ":" ++ pad d.minutes)))))))
    ]

unfoldable pub from_date_time_local_input : (Text → Option ℤ) → (ℤ → Text) → Text → Text
from_date_time_local_input time to_iso_string value =
    if is_empty value then [] else elim (time value) [ none ↦ [] | some t ↦ to_iso_string t ]

unfoldable pub snooze_for_days : (ℤ → Text) → ℤ → ℕ → Text
snooze_for_days to_iso_string now days = to_iso_string (now +ℤ pos (days * 24 * 60 * 60 * 1000))

-- `formatDateTime` and `formatSnooze`; `show` is the host's format of a date
unfoldable pub format_date_time : (Text → Option ℤ) → (ℤ → Text) → Option Text → Text
format_date_time time show value =
    if not (truthy value)
    then units "예약 없음"
    else elim (time (text_or_empty value)) [ none ↦ text_or_empty value | some t ↦ show t ]

unfoldable pub format_snooze : (Text → Option ℤ) → (ℤ → Text) → Option Text → Text
unfolding format_date_time
format_snooze time show value =
    if not (truthy value) then units "일시정지" else units "정지 해제 " ++ format_date_time time show value
