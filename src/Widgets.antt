-- ===== src/Widgets.antt =====
-- Helpers of web/src: the texts of TeamPulseWidget.tsx and WorkspaceActivityStrip.tsx, the badge of
-- RuntimeBadge.tsx, the filter of WorkspaceRunsPage.tsx, and
-- the snooze test of AutopilotPage.tsx. `toLowerCase`, `Date.parse` and the clock are arguments.
pub mod Alert
pub mod Confirm
pub mod Messages
mod Tests
use cron_agent_dashboard.Prelude.{
  ℕ, ◌+◌, ◌-◌, ◌/◌, ◌%◌, Bool, true, false, not, ◌&&◌, ◌||◌, Option, none, some, List, [], ◌∷◌,
  ◌++◌, Text, units, text_eq, trim, trimmed, is_empty, filter, find, coalesce, or_text, or_default,
  text_or_empty, truthy, if◌then◌else◌, ltb, decimal, is_some, head?,
}
use cron_agent_dashboard.Prelude.Int.{ℤ, ◌-ℤ◌, pos, negsuc, ltb_ℤ}
use cron_agent_dashboard.Api.Records.{Run, Issue}
use cron_agent_dashboard.Api.Responses.{AvailableRuntime, AutopilotRule}
use cron_agent_dashboard.Api.Fetch.{ApiErrorBody, ErrorDetail, api_error_message}
use cron_agent_dashboard.Mentions.{includes}
use cron_agent_dashboard.Labels.{Labels, label_of}

abbrev dot_classes : Labels
dot_classes =
    (units "running", units "running")
    ∷ (units "queued", units "queued")
    ∷ (units "failed", units "failed")
    ∷ (units "cancelled", units "cancelled")
    ∷ (units "done", units "done")
    ∷ []

abbrev pulse_labels : Labels
pulse_labels =
    (units "running", units "실행 중")
    ∷ (units "queued", units "대기")
    ∷ (units "done", units "완료")
    ∷ (units "failed", units "실패")
    ∷ (units "cancelled", units "취소")
    ∷ []

abbrev switch : Labels → Text → Option Text → Text
switch table default none = default
switch table default (some status) = coalesce (label_of table status) default

unfoldable pub dot_class : Option Text → Text
unfolding label_of
dot_class status = switch dot_classes (units "idle") status

unfoldable pub pulse_status_label : Option Text → Text
unfolding label_of
pulse_status_label status = switch pulse_labels (units "대기 없음") status

-- `Math.max(0, d)`
abbrev at_least_zero : ℤ → ℕ
at_least_zero (pos n) = n
at_least_zero (negsuc n) = 0

abbrev ago_text : ℕ → Text
ago_text s =
    let m = s / 60 in
    let h = m / 60 in
    if ltb s 60
    then decimal s ++ units "초 전"
    else if ltb m 60
    then decimal m ++ units "분 전"
    else if ltb h 24
    then decimal h ++ units "시간 전"
    else decimal (h / 24) ++ units "일 전"

abbrev since : (Text → Option ℤ) → ℤ → Option Text → Option ℕ
since time now none = none
since time now (some []) = none
since time now (some (c ∷ s)) = elim (time (c ∷ s)) [
  | none ↦ none
  | some t ↦ some (at_least_zero (now -ℤ t))
]

abbrev or_nothing : (ℕ → Text) → Option ℕ → Text
or_nothing text none = []
or_nothing text (some n) = text n

-- `relativeTime`; a time to come rounds to 0 seconds.
unfoldable pub relative_time : (Text → Option ℤ) → ℤ → Option Text → Text
unfolding ◌-ℤ◌ decimal
relative_time time now iso = or_nothing (λ ms. ago_text ((ms + 500) / 1000)) (since time now iso)

abbrev elapsed_text : ℕ → Text
elapsed_text s =
    let m = s / 60 in
    let h = m / 60 in
    if ltb s 60
    then decimal s ++ units "초"
    else if ltb m 60
    then decimal m ++ (units "분 " ++ (decimal (s % 60) ++ units "초"))
    else decimal h ++ (units "시간 " ++ (decimal (m % 60) ++ units "분"))

-- `formatElapsed` of WorkspaceActivityStrip.tsx
unfoldable pub strip_elapsed : (Text → Option ℤ) → ℤ → Option Text → Text
unfolding ◌-ℤ◌ decimal
strip_elapsed time now iso = or_nothing (λ ms. elapsed_text (ms / 1000)) (since time now iso)

-- Which of its forms the activity strip takes
pub data Activity : Type 0 where
  idle : Activity
  review : Issue → Activity
  active : Option Issue → Option Issue → Activity

unfoldable pub activity_strip : List Issue → List Issue → List Issue → Activity
activity_strip running_issues queued_issues review_issues =
    let running = head? running_issues in
    let queued = head? queued_issues in
    let review_pending = filter (λ i. ltb 0 i.comment_count) review_issues in
    if is_some running || is_some queued
    then active running queued
    else elim review_pending [ [] ↦ idle | i ∷ is ↦ review i ]

pub data RuntimeBadgeVariant : Type 0 where
  ok warn_known_issue warn_not_detected : RuntimeBadgeVariant

pub record RuntimeClassification : Type 0 where
  pub variant : RuntimeBadgeVariant
  pub label : Text
  pub description : Text

abbrev pub known_runtime_issues : Labels
known_runtime_issues = []

abbrev pub not_detected : Text → Option Text → RuntimeClassification
not_detected runtime detail = record {
  variant = warn_not_detected;
  label = units "⚠ 미감지";
  description = or_default detail (runtime ++ units " CLI가 PATH에서 감지되지 않습니다. 설치 후 서버를 재시작하세요.");
}

-- `info.supported === false`
abbrev pub unsupported : AvailableRuntime → Bool
unsupported info = elim info.supported [ none ↦ false | some b ↦ not b ]

abbrev version_suffix : Text → Text
version_suffix [] = []
version_suffix (c ∷ s) = units " · " ++ c ∷ s

abbrev detected : Text → Option Text → AvailableRuntime → RuntimeClassification
detected runtime (some known_issue) info = record {
  variant = warn_known_issue;
  label = units "⚠ 운영 주의";
  description = known_issue;
}
detected runtime none info = record {
  variant = ok;
  label = units "✓ 권장";
  description = runtime ++ (units " CLI 감지 — " ++ (info.path ++ version_suffix info.version));
}

abbrev pub runtime_named : (Text → Text) → Text → AvailableRuntime → Bool
runtime_named lower runtime info = text_eq (lower (trim info.name)) (lower (trim runtime))

abbrev pub classify_info : (Text → Text) → Text → Option AvailableRuntime → RuntimeClassification
classify_info lower runtime none = not_detected runtime none
classify_info lower runtime (some info) =
    if unsupported info
    then not_detected runtime (trimmed info.warning)
    else detected runtime (label_of known_runtime_issues (lower (trim runtime))) info

-- `classifyRuntime`; the list is undefined until it is loaded.
unfoldable pub classify_runtime :
    (Text → Text) → Text → Option (List AvailableRuntime) → RuntimeClassification
unfolding label_of
classify_runtime lower runtime none = classify_info lower runtime none
classify_runtime lower runtime (some runtimes) =
    classify_info lower runtime (find (runtime_named lower runtime) runtimes)

-- The filter of the runs feed; an empty text filters nothing.
unfoldable pub feed_shows : (Text → Text) → Text → Text → Text → Run → Bool
unfolding includes text_eq trim
feed_shows lower status_filter agent_filter search run =
    let needle = lower (trim search) in
    let haystack = lower (
      run.id
      ++ (32
          ∷ (text_or_empty run.chain_id
              ++ (32
                  ∷ (text_or_empty run.agent_name ++ (32 ∷ text_or_empty run.error_message)))))) in
    if not (is_empty status_filter) && not (text_eq run.status status_filter)
    then false
    else if not (is_empty agent_filter) && not (text_eq (text_or_empty run.agent_id) agent_filter)
    then false
    else if is_empty needle
    then true
    else includes haystack needle

-- `isRuleSnoozed`
unfoldable pub is_rule_snoozed : (Text → Option ℤ) → ℤ → AutopilotRule → Bool
is_rule_snoozed time now rule =
    if not (truthy rule.snooze_until)
    then false
    else elim (time (text_or_empty rule.snooze_until)) [ none ↦ false | some t ↦ ltb_ℤ now t ]
