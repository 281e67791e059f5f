-- ===== src/Pages/Webhooks/Events.antt =====
-- The events that are ticked.
use cron_agent_dashboard.Prelude.{
  ◌≡◌, refl, not, ◌&&◌, ◌||◌, List, [], ◌∷◌, ◌++◌, arith, Text, text_eq, text_eq_iff, filter,
  if◌then◌else◌,
}
use cron_agent_dashboard.Pages.Webhooks.{has_event, toggle_event}

has-append :
    (event e : Text) (xs : List Text)
    → has_event event (xs ++ e ∷ []) ≡ (has_event event xs || text_eq e event)
has-append event e [] = ground arith
has-append event e (x ∷ xs) = ground (arith, has-append event e xs)

has-removed :
    (event e : Text) (xs : List Text)
    → has_event event (filter (λ x. not (text_eq x e)) xs)
      ≡ (has_event event xs && not (text_eq event e))
has-removed event e [] = refl
has-removed event e (x ∷ xs) =
    ground
      (arith, has-removed event e xs, text_eq_iff x e, text_eq_iff x event, text_eq_iff event e)

-- To tick or untick an event changes whether that event is selected, and no other.
pub has_event-toggle_event :
    (event e : Text) (selected : List Text)
    → has_event event (toggle_event e selected)
      ≡ (if text_eq event e then not (has_event event selected) else has_event event selected)
unfolding toggle_event
has_event-toggle_event event e selected = ground (
  arith,
  has-append event e selected,
  has-removed event e selected,
  text_eq_iff event e,
  text_eq_iff e event,
)
