-- ===== src/Pages/Autopilot.antt =====
-- web/src/pages/AutopilotPage.tsx: the rules that are shown and counted, and what starting a rule says.
-- `toLowerCase`, `Date.parse` and the clock are arguments.
pub mod Dialog
pub mod Filters
mod Tests
use cron_agent_dashboard.Prelude.{
  ◌&&◌, ◌*◌, ◌+◌, filter, length, truthy, ◌||◌, any, coalesce, is_empty, ltb, none, not, or_default,
  some, trim, ◌∷◌, [], decimal, if◌then◌else◌, text_or_empty, ◌++◌, ℕ,
}
use cron_agent_dashboard.Prelude.Int.{pos, ◌+ℤ◌, ℤ, ltb_ℤ}
use cron_agent_dashboard.Pages.{
  Bool, List, Option, Text, false, true, units, Effect, invalidates, closes,
}
use cron_agent_dashboard.Api.Records.{Issue}
use cron_agent_dashboard.Api.Responses.{AutopilotRule, AutopilotTriggerResponse}
use cron_agent_dashboard.Api.Queries.{KeyPart, word, part, shown}
use cron_agent_dashboard.Mentions.{includes}
use cron_agent_dashboard.Widgets.{is_rule_snoozed}

pub data RuleFilter : Type 0 where
  all enabled paused : RuleFilter

pub data NoticeTone : Type 0 where
  success error : NoticeTone

pub record TriggerNotice : Type 0 where
  pub tone : NoticeTone
  pub message : Text
  pub issue_href : Option Text

pub record AutopilotTemplate : Type 0 where
  pub name : Text
  pub cron_expr : Text
  pub issue_title_template : Text
  pub issue_body_template : Text

abbrev pub filters : List (RuleFilter × Text)
filters =
    (RuleFilter.all, units "전체")
    ∷ (RuleFilter.enabled, units "ON")
    ∷ (RuleFilter.paused, units "OFF/일시정지")
    ∷ []

-- A template and its summary
abbrev pub templates : List (AutopilotTemplate × Text)
templates =
    (
      record {
        name = units "매일 AI 뉴스 브리핑";
        cron_expr = units "0 9 * * *";
        issue_title_template = units "{{date}} AI 뉴스 브리핑";
        issue_body_template = units "오늘의 AI 주요 뉴스를 5개로 요약하고, 출처 링크와 영향도를 정리하세요.";
      },
      units "매일 오전 9시 AI 뉴스 정리 이슈 생성",
    )
    ∷ (
      record {
        name = units "주간 작업 회고";
        cron_expr = units "0 17 * * 5";
        issue_title_template = units "{{date}} 주간 작업 회고";
        issue_body_template = units "이번 주 완료/진행/실패 작업을 요약하고 다음 액션을 제안하세요.";
      },
      units "매주 금요일 작업 흐름 요약",
    )
    ∷ (
      record {
        name = units "문서 갭 점검";
        cron_expr = units "0 10 * * 1";
        issue_title_template = units "{{date}} 문서 갭 점검";
        issue_body_template = units "최근 변경 사항과 문서의 불일치를 찾아 업데이트 후보를 제안하세요.";
      },
      units "매주 월요일 문서 정합성 확인",
    )
    ∷ []

-- `[a, b, …].filter(Boolean).some(…)`
abbrev pub searched : AutopilotRule → List (Option Text)
searched rule =
    some rule.name
    ∷ some rule.cron_expr
    ∷ some rule.issue_title_template
    ∷ rule.assignee_agent_name
    ∷ rule.last_error
    ∷ []

abbrev pub mentions : (Text → Text) → Text → AutopilotRule → Bool
mentions lower q rule = any (λ o. truthy o && includes (lower (text_or_empty o)) q) (searched rule)

-- The arguments `time` and `now` are `Date.parse` and the clock.
unfoldable pub shows_rule :
    (Text → Text) → (Text → Option ℤ) → ℤ → RuleFilter → Text → AutopilotRule → Bool
unfolding includes is_rule_snoozed
shows_rule lower time now chosen q rule =
    let snoozed = is_rule_snoozed time now rule in
    elim chosen [
      | RuleFilter.all ↦ is_empty q || mentions lower q rule
      | RuleFilter.enabled ↦ rule.enabled && not snoozed && (is_empty q || mentions lower q rule)
      | RuleFilter.paused ↦
          not (rule.enabled && not snoozed) && (is_empty q || mentions lower q rule)
    ]

unfoldable pub visible_rules :
    (Text → Text)
    → (Text → Option ℤ)
    → ℤ
    → RuleFilter
    → Text
    → Option (List AutopilotRule)
    → List AutopilotRule
unfolding shows_rule
visible_rules lower time now chosen query rules =
    let q = lower (trim query) in filter (shows_rule lower time now chosen q) (coalesce rules [])

pub record RuleCounts : Type 0 where
  pub all : ℕ
  pub enabled : ℕ
  pub paused : ℕ
  pub failed : ℕ

unfoldable pub rule_counts : (Text → Option ℤ) → ℤ → Option (List AutopilotRule) → RuleCounts
unfolding is_rule_snoozed
rule_counts time now rules =
    let xs = coalesce rules [] in
    record {
      all = length xs;
      enabled = length (filter (λ r. r.enabled && not (is_rule_snoozed time now r)) xs);
      paused = length (filter (λ r. not r.enabled || is_rule_snoozed time now r) xs);
      failed = length (filter (λ r. ltb 0 r.consecutive_failures) xs);
    }

-- What a failed request was: an `ApiError` with its body's message and its own, another `Error`, or none
pub data Failure : Type 0 where
  api_error : Option Text → Text → Failure
  plain_error : Text → Failure
  unknown : Failure

abbrev pub api_error_text : Failure → Text
api_error_text (api_error body_message message) = coalesce body_message message
api_error_text (plain_error message) = message
api_error_text unknown = units "알 수 없는 오류"

-- `data.issue ?? data.trigger_result.issue`
abbrev pub created_issue : AutopilotTriggerResponse → Option Issue
created_issue answer = elim answer.issue [
  | some issue ↦ some issue
  | none ↦ answer.trigger_result.issue
]

unfoldable pub trigger_succeeds :
    Option Text → AutopilotTriggerResponse → AutopilotRule → TriggerNotice
trigger_succeeds slug answer rule = record {
  tone = NoticeTone.success;
  message = or_default (some answer.rule.name) rule.name ++ units " 실행 이슈를 생성했습니다.";
  issue_href = elim (created_issue answer) [
    | none ↦ none
    | some issue ↦ some (
        units "/w/"
        ++ (shown slug ++ (units "/issues/" ++ or_default (some issue.identifier) issue.id)))
  ];
}

unfoldable pub trigger_fails : Failure → AutopilotRule → TriggerNotice
trigger_fails thrown rule = record {
  tone = NoticeTone.error;
  message = rule.name ++ (units " 실행 실패: " ++ api_error_text thrown);
  issue_href = none;
}
