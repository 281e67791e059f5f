-- ===== src/Panels/Guards.antt =====
-- The guard colours of a chain.
use cron_agent_dashboard.Prelude.{ℕ, ◌≤◌, ◌<◌, ◌≡◌, ◌↔◌, ◌⊎◌, refl, Option, none, some, arith}
use cron_agent_dashboard.Chains.{ChainSummary}
use cron_agent_dashboard.Panels.{over, classify_guard, row_guard}

-- A limit that is set and reached
abbrev pub Reached : ℕ → Option ℕ → Type 0
Reached used limit = (n : ℕ) × (limit ≡ some n) × (0 < n) × (n ≤ used)

classify_guard_over :
    (used : ℕ) (limit : Option ℕ) → (classify_guard used limit ≡ over) ↔ Reached used limit
unfolding classify_guard
classify_guard_over used none = (λ e. cc, λ (n, e, p, q). cc)
classify_guard_over used (some m) =
    (λ e. (m, refl, ground arith, ground arith), λ (n, e, p, q). ground arith)

-- A row is marked as over exactly if the depth or the cost of the chain has reached its limit, where
-- a limit that is missing or 0 is none.
pub row_guard_over :
    (summary : ChainSummary) (depth_limit cost_limit : Option ℕ)
    → (row_guard summary depth_limit cost_limit ≡ over)
      ↔ (Reached summary.max_chain_depth depth_limit ⊎ Reached summary.total_cost_micros cost_limit)
unfolding row_guard
row_guard_over summary depth_limit cost_limit = ground (
  arith,
  classify_guard_over summary.max_chain_depth depth_limit,
  classify_guard_over summary.total_cost_micros cost_limit,
)
