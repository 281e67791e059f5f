-- ===== src/Prelude/Decimal.antt =====
-- A number in a template literal: its decimal digits.
use Prim.Native.Nat.{ℕ, zero, suc, ◌+◌, ◌/◌, ◌%◌}
use mathlib.Core.Path.{◌≡◌, refl}
use mathlib.Core.List.{[], ◌∷◌}
use package.cron_agent_dashboard.Prelude.Tests.{ltb, if◌then◌else◌}
use package.cron_agent_dashboard.Prelude.Strings.{Text, units}

digits_from : ℕ → ℕ → Text → Text
digits_from zero n rest = rest
digits_from (suc fuel) n rest =
    let more = digits_from fuel (n / 10) ((48 + n % 10) ∷ rest) in
    if ltb n 10 then (48 + n) ∷ rest else more

-- `n + 1` rounds are enough.
unfoldable pub decimal : ℕ → Text
unfolding digits_from
decimal n = digits_from (suc n) n []

decimal_test : decimal 204 ≡ units "204"
unfolding decimal
decimal_test = refl
