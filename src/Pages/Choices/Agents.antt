-- ===== src/Pages/Choices/Agents.antt =====
-- Which agents and workspaces are shown.
use cron_agent_dashboard.Prelude.{
  ◌≡◌, refl, ap, Bool, true, ◌&&◌, Option, List, [], ◌∷◌, arith, Text, trim, trim_start, trim_end,
  coalesce, filter, length,
}
use cron_agent_dashboard.Api.Records.{Agent}
use cron_agent_dashboard.Pages.Choices.{AgentFilter, fits_filter, visible_agents, count_agents}

filter-and_true :
    (p q : Agent → Bool)
    → ((a : Agent) → q a ≡ true)
    → (xs : List Agent) → filter (λ a. p a && q a) xs ≡ filter p xs
filter-and_true p q h [] = refl
filter-and_true p q h (x ∷ xs) = ground (arith, h x, filter-and_true p q h xs)

-- While nothing is searched for, as many agents are shown under a filter as are counted for it.
pub length-visible_agents :
    (lower : Text → Text) (chosen : AgentFilter) (agents : Option (List Agent))
    → lower [] ≡ []
    → length (visible_agents lower chosen [] agents) ≡ count_agents chosen agents
unfolding visible_agents count_agents trim trim_start trim_end
length-visible_agents lower chosen agents blank =
    rw blank (ap length (filter-and_true (fits_filter chosen) _ (λ a. refl) (coalesce agents [])))
