-- ===== src/Queue/Retries.antt =====
-- How often a run is repeated.
use cron_agent_dashboard.Prelude.{
  ℕ, ◌-◌, ◌≤◌, ◌<◌, ◌≡◌, subst, inl, inr, true, ◌&&◌, Option, some, List, [], ◌∷◌, ◌++◌, map, arith,
  Text, text_eq_refl, leb, Bool-cases, sum_by,
}
use cron_agent_dashboard.Queue.{
  RunRow, is_running, reschedule_row, reschedule_run, should_retry_run,
}

-- The attempts that a run has left
abbrev pub attempts_left : RunRow → ℕ
attempts_left r = r.max_attempts - r.attempt

left-reschedule_row :
    (id at path : Text) (r : RunRow) → attempts_left (reschedule_row id at path r) ≤ attempts_left r
left-reschedule_row id at path r = ground arith

left-map :
    (id at path : Text) (runs : List RunRow)
    → sum_by attempts_left (map (reschedule_row id at path) runs) ≤ sum_by attempts_left runs
left-map id at path [] = omega arith
left-map id at path (r ∷ rs) =
    omega (arith, left-reschedule_row id at path r, left-map id at path rs)

-- One of the rows is rescheduled.
left-map-less :
    (at path : Text) (r : RunRow) (before behind : List RunRow)
    → attempts_left (reschedule_row r.id at path r) < attempts_left r
    → sum_by attempts_left (map (reschedule_row r.id at path) (before ++ r ∷ behind))
      < sum_by attempts_left (before ++ r ∷ behind)
left-map-less at path r [] behind h = omega (arith, h, left-map r.id at path behind)
left-map-less at path r (x ∷ xs) behind h =
    omega (arith, left-reschedule_row r.id at path x, left-map-less at path r xs behind h)

retry_has_attempts :
    (retry_on : Option (List Text)) (kind : Text) (attempt max_attempts : ℕ)
    → should_retry_run retry_on kind attempt max_attempts ≡ true
    → attempt < max_attempts
unfolding should_retry_run
retry_has_attempts retry_on kind attempt max_attempts h =
    elim (Bool-cases (leb max_attempts attempt)) [
      | inl e ↦ absurd (ground (arith, h, e))
      | inr e ↦ ground (arith, e)
    ]

row_less :
    (at path : Text) (r : RunRow)
    → is_running r ≡ true
    → r.attempt < r.max_attempts
    → attempts_left (reschedule_row r.id at path r) < attempts_left r
row_less at path r h k = ground (arith, h, k, text_eq_refl r.id)

-- Each time that a run of the table is rescheduled, the runs of the table have fewer attempts left in all.
pub reschedule_run-attempts_left :
    (retry_on : Option (List Text)) (kind at stdout_path : Text) (r : RunRow)
    (before behind after : List RunRow)
    → reschedule_run retry_on kind at stdout_path r (before ++ r ∷ behind) ≡ some after
    → sum_by attempts_left after < sum_by attempts_left (before ++ r ∷ behind)
unfolding reschedule_run
reschedule_run-attempts_left retry_on kind at stdout_path r before behind after e =
    let allowed : (is_running r && should_retry_run retry_on kind r.attempt r.max_attempts) ≡ true =
      ground (arith, e) in
    let same : map (reschedule_row r.id at stdout_path) (before ++ r ∷ behind) ≡ after =
      ground (arith, e) in
    subst (λ x. sum_by attempts_left x < sum_by attempts_left (before ++ r ∷ behind)) same
      (left-map-less at stdout_path r before behind (
        row_less at stdout_path r (ground (arith, allowed))
          (retry_has_attempts retry_on kind r.attempt r.max_attempts (ground (arith, allowed)))))
