-- ===== src/Pages/Autopilot/Filters.antt =====
-- Which rules are shown, and how many.
use cron_agent_dashboard.Pages.Autopilot.{
  is_rule_snoozed, Bool, filter, length, AutopilotRule, List, shows_rule, trim, ℤ, Option,
  visible_rules, Text, rule_counts, RuleFilter,
}
use cron_agent_dashboard.Prelude.{
  trim_end, ◌+◌, ◌≡◌, refl, sym, ap, Bool, not, ◌&&◌, ◌||◌, Option, List, [], ◌∷◌, arith, Text,
  trim, trim_start, coalesce, filter, length,
}

-- Rules are told apart by whether they are snoozed.
module _ (time : Text → Option ℤ) (now : ℤ) where
  abbrev is_on : AutopilotRule → Bool
  is_on r = r.enabled && not (is_rule_snoozed time now r)

  abbrev is_paused : AutopilotRule → Bool
  is_paused r = not r.enabled || is_rule_snoozed time now r

  on_or_paused :
      (xs : List AutopilotRule)
      → length (filter is_on xs) + length (filter is_paused xs) ≡ length xs
  on_or_paused [] = omega arith
  on_or_paused (x ∷ xs) = ground (arith, on_or_paused xs)

  module _ (lower : Text → Text) where
    shows_all :
        (xs : List AutopilotRule) → filter (shows_rule lower time now RuleFilter.all []) xs ≡ xs
    unfolding shows_rule
    shows_all [] = refl
    shows_all (x ∷ xs) = ground (arith, shows_all xs)

    shows_on :
        (xs : List AutopilotRule)
        → filter (shows_rule lower time now RuleFilter.enabled []) xs ≡ filter is_on xs
    unfolding shows_rule
    shows_on [] = refl
    shows_on (x ∷ xs) = ground (arith, shows_on xs)

    shows_paused :
        (xs : List AutopilotRule)
        → filter (shows_rule lower time now RuleFilter.paused []) xs ≡ filter is_paused xs
    unfolding shows_rule
    shows_paused [] = refl
    shows_paused (x ∷ xs) = ground (arith, shows_paused xs)

-- The counts of the rules that are on and of those that are off or paused add up to the count of all;
-- each of the three is the number of rules shown under its filter while nothing is searched for.
pub rule_counts-visible_rules :
    (lower : Text → Text) (time : Text → Option ℤ) (now : ℤ) (rules : Option (List AutopilotRule))
    → lower [] ≡ []
    → ((rule_counts time now rules).enabled + (rule_counts time now rules).paused
        ≡ (rule_counts time now rules).all)
      × ((rule_counts time now rules).all
          ≡ length (visible_rules lower time now RuleFilter.all [] rules))
      × ((rule_counts time now rules).enabled
          ≡ length (visible_rules lower time now RuleFilter.enabled [] rules))
      × ((rule_counts time now rules).paused
          ≡ length (visible_rules lower time now RuleFilter.paused [] rules))
unfolding rule_counts visible_rules trim trim_start trim_end
rule_counts-visible_rules lower time now rules blank =
    let xs = coalesce rules [] in
    rw blank (
      on_or_paused time now xs,
      ap length (sym (shows_all time now lower xs)),
      ap length (sym (shows_on time now lower xs)),
      ap length (sym (shows_paused time now lower xs)),
    )
