-- ===== src/Toasts.antt =====
-- web/src/components/ToastProvider.tsx: the list of toasts behind `showToast` and `dismissToast`,
-- and the timer of a `ToastCard`. The id that `createToastId` draws is an argument.
pub mod Bounded
mod Tests
use cron_agent_dashboard.Prelude.{
  ℕ, Bool, true, false, not, Option, none, some, List, [], ◌∷◌, Text, units, text_eq, filter, take,
  coalesce, if◌then◌else◌,
}
use cron_agent_dashboard.Prelude.Int.{ℤ, pos, ltb_ℤ}

pub data ToastTone : Type 0 where
  success error info warning : ToastTone

pub record ToastAction : Type 0 where
  pub label : Text
  pub href : Text

pub record Toast : Type 0 where
  pub id : Text
  pub tone : ToastTone
  pub title : Text
  pub description : Option Text
  pub action : Option ToastAction
  pub duration_ms : Option ℤ

pub record ToastInput : Type 0 where
  pub id : Option Text
  pub tone : ToastTone
  pub title : Text
  pub description : Option Text
  pub action : Option ToastAction
  pub duration_ms : Option ℤ

abbrev pub default_duration_ms : ToastTone → ℤ
default_duration_ms success = pos 4000
default_duration_ms info = pos 5000
default_duration_ms warning = pos 6000
default_duration_ms error = pos 8000

-- `input.id ?? createToastId()`
pub toast_of : ToastInput → Text → Toast
toast_of input fresh = record {
  id = coalesce input.id fresh;
  tone = input.tone;
  title = input.title;
  description = input.description;
  action = input.action;
  duration_ms = input.duration_ms;
}

unfoldable pub dismiss_toast : Text → List Toast → List Toast
dismiss_toast id toasts = filter (λ t. not (text_eq t.id id)) toasts

unfoldable pub show_toast : ToastInput → Text → List Toast → List Toast
unfolding toast_of dismiss_toast
show_toast input fresh toasts =
    let toast = toast_of input fresh in take 5 (toast ∷ dismiss_toast toast.id toasts)

-- The delay after which a card dismisses itself: none if its duration is not positive
unfoldable pub dismiss_after : Toast → Option ℤ
dismiss_after toast =
    let duration = coalesce toast.duration_ms (default_duration_ms toast.tone) in
    if ltb_ℤ (pos 0) duration then some duration else none

-- What happens to the list: a toast is shown, or one is dismissed by its button, its link or timer.
pub data Change : Type 0 where
  show : ToastInput → Text → Change
  dismiss : Text → Change

pub change : List Toast → Change → List Toast
unfolding show_toast dismiss_toast
change toasts (show input fresh) = show_toast input fresh toasts
change toasts (dismiss id) = dismiss_toast id toasts

unfoldable pub changes : List Toast → List Change → List Toast
unfolding change
changes toasts [] = toasts
changes toasts (c ∷ cs) = changes (change toasts c) cs
