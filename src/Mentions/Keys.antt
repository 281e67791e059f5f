-- ===== src/Mentions/Keys.antt =====
-- The suggestions and the highlighted one.
use native.Mathlib.Nat.{mod-eq_of_lt, add-mod_right}
use cron_agent_dashboard.Prelude.{
  ap, ◌∙◌, inl, inr, ℕ, zero, suc, ◌+◌, ◌-◌, ◌%◌, ◌<◌, ◌≡◌, ◌⊎◌, refl, arith,
}
use cron_agent_dashboard.Mentions.{arrow_down, arrow_up}

next_index :
    (count index : ℕ)
    → index < count
    → ((index + 1 < count) × (arrow_down count index ≡ index + 1))
      ⊎ ((index + 1 ≡ count) × (arrow_down count index ≡ 0))
unfolding arrow_down
next_index count index h = grind arith

previous_index :
    (count index : ℕ)
    → index < count
    → ((0 < index) × (arrow_up count index ≡ index - 1))
      ⊎ ((index ≡ 0) × (arrow_up count index ≡ count - 1))
unfolding arrow_up
previous_index count zero h =
    inr (refl, ap (λ n. n % count) (zero_first count) ∙ mod-eq_of_lt (omega arith))
  where
    zero_first : (n : ℕ) → 0 + n - 1 ≡ n - 1
    zero_first n = omega arith
previous_index count (suc index) h = inl (
  omega arith,
  ap (λ n. n % count) (suc_first index count)
      ∙ add-mod_right index count
      ∙ mod-eq_of_lt (omega arith)
      ∙ omega arith,
)
  where
    suc_first : (i n : ℕ) → suc i + n - 1 ≡ i + n
    suc_first i n = omega arith

-- From a highlighted suggestion each of the arrow keys leads to a suggestion, and the other arrow
-- leads back.
pub arrow_keys :
    (count index : ℕ)
    → index < count
    → (arrow_down count index < count)
      × (arrow_up count index < count)
      × (arrow_up count (arrow_down count index) ≡ index)
      × (arrow_down count (arrow_up count index) ≡ index)
arrow_keys count index h = (
  omega (arith, next_index count index h),
  omega (arith, previous_index count index h),
  elim (next_index count index h) [
    | inl (lt, e) ↦ rw e (omega (arith, previous_index count (index + 1) lt))
    | inr (eq, e) ↦ rw e (omega (arith, previous_index count 0 (omega arith)))
  ],
  elim (previous_index count index h) [
    | inl (lt, e) ↦ rw e (omega (arith, next_index count (index - 1) (omega arith)))
    | inr (eq, e) ↦ rw e (omega (arith, next_index count (count - 1) (omega arith)))
  ],
)
