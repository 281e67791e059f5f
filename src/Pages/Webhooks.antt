-- ===== src/Pages/Webhooks.antt =====
-- web/src/components/WorkspaceWebhookSection.tsx: the form of a webhook, its events, and the rows of the
-- webhooks and their deliveries. To parse and print JSON is the host's `pretty`, none where it throws.
pub mod Events
use cron_agent_dashboard.Prelude.{
  ℕ, zero, suc, ◌+◌, ◌-◌, ◌*◌, ◌/◌, ◌%◌, ◌≤◌, ◌<◌, max, ◌≡◌, refl, sym, ap, ◌∙◌, subst, ◌≢◌, ◌↔◌,
  ◌⊎◌, inl, inr, Bool, true, false, not, ◌&&◌, ◌||◌, Option, none, some, List, [], ◌∷◌, ◌++◌, map,
  arith, Text, units, text_eq, text_eq_iff, text_eq_refl, trim, trim_start, trim_end, is_empty,
  truthy, text_or_empty, or_default, or_text, coalesce, filter, find, any, all, take, length,
  if◌then◌else◌, ltb, leb, ◌==◌, decimal, is_some, head?, Bool-cases, Option-cases, All, All-append,
  All-imp, trimmed, starts_with, sum_by,
}
use cron_agent_dashboard.Api.Responses.{Webhook, WebhookDelivery, DeliveryStatus}
use cron_agent_dashboard.Api.Queries.{KeyPart, word}
use cron_agent_dashboard.Pages.{Effect, invalidates}

abbrev pub all_events : List Text
all_events =
    units "run.completed" ∷ units "run.failed" ∷ units "issue.done" ∷ units "issue.cancelled" ∷ []

-- `selected` is a set in the order of insertion.
pub record WebhookForm : Type 0 where
  pub url : Text
  pub secret : Text
  pub selected : List Text
  pub mask_pii : Bool
  pub error : Text

abbrev pub empty_webhook_form : WebhookForm
empty_webhook_form = record { url = []; secret = []; selected = []; mask_pii = false; error = [] }

-- `selected.has(event)`
abbrev pub has_event : Text → List Text → Bool
has_event event = any (λ e. text_eq e event)

unfoldable pub toggle_event : Text → List Text → List Text
toggle_event event selected =
    if has_event event selected
    then filter (λ e. not (text_eq e event)) selected
    else selected ++ event ∷ []

-- What `onSubmit` does: it asks for a URL, or sends the form to a path.
pub data Submission : Type 0 where
  rejects : WebhookForm → Submission
  posts : Text → WebhookForm → Submission

unfoldable pub submit_webhook : Text → WebhookForm → Submission
submit_webhook slug form =
    if is_empty (trim form.url)
    then rejects (record form { error = units "URL이 필요합니다." })
    else posts (units "/workspaces/" ++ (slug ++ units "/webhooks")) form

unfoldable pub webhook_created : Text → WebhookForm → WebhookForm × List Effect
webhook_created slug form =
    (empty_webhook_form, invalidates (word (units "webhooks") ∷ word slug ∷ []) ∷ [])

-- The message of the `Error` that was thrown, or none for anything else
unfoldable pub webhook_refused : Option Text → WebhookForm → WebhookForm
webhook_refused thrown form = record form { error = coalesce thrown (units "알 수 없는 오류") }

unfoldable pub webhook_removed : Text → List Effect
webhook_removed slug = invalidates (word (units "webhooks") ∷ word slug ∷ []) ∷ []

unfoldable pub redeliver_path : Webhook → Text → Text
redeliver_path hook delivery_id =
    units "/webhooks/" ++ (hook.id ++ (units "/deliveries/" ++ (delivery_id ++ units "/redeliver")))

unfoldable pub redeliver_failed_path : Webhook → Text
redeliver_failed_path hook = units "/webhooks/" ++ (hook.id ++ units "/deliveries/redeliver-failed")

-- What both ways of sending again read again
unfoldable pub redelivered : Webhook → List Effect
redelivered hook =
    invalidates (word (units "webhook-deliveries") ∷ word hook.id ∷ [])
    ∷ invalidates (word (units "webhooks") ∷ [])
    ∷ []

-- The badges of a row
unfoldable pub webhook_badges : Webhook → List Text
webhook_badges hook =
    (if hook.has_secret then units "서명 사용" ∷ [] else [])
    ++ ((if hook.mask_pii then units "PII 마스킹" ∷ [] else [])
        ++ ((if ltb 0 hook.failed_delivery_count
              then (units "dead-letter " ++ (decimal hook.failed_delivery_count ++ units "건")) ∷ []
              else [])
            ++ (if hook.enabled then [] else units "비활성" ∷ [])))

-- `d.status_code || ''`
abbrev pub status_code_text : ℕ → Text
status_code_text n = if n == 0 then [] else decimal n

unfoldable pub label_for_status : WebhookDelivery → Text
label_for_status d = elim d.status [
  | DeliveryStatus.delivered ↦ units "200 OK (시도 " ++ (decimal d.attempt ++ units ")")
  | DeliveryStatus.failed ↦ trim (
      units "실패 "
      ++ (status_code_text d.status_code ++ (units " (시도 " ++ (decimal d.attempt ++ units ")"))))
  | DeliveryStatus.pending ↦ units "대기 중 (시도 " ++ (decimal d.attempt ++ units ")")
]

unfoldable pub format_payload : (Text → Option Text) → Option Text → Text
format_payload pretty raw =
    if not (truthy raw)
    then units "(payload 없음)"
    else coalesce (pretty (text_or_empty raw)) (text_or_empty raw)
