-- ===== src/Review/Recovery.antt =====
-- What the banner says of the failed runs.
use cron_agent_dashboard.Prelude.{
  or_default, or_text, All, ap, subst, ◌++◌, length-filter-le, ◌+◌, ◌≤◌, ◌≡◌, refl, sym, ◌∙◌, ◌↔◌,
  true, false, Option, none, some, List, [], ◌∷◌, Text, units, text_eq, text_eq_iff, find, filter,
  length, is_some, Bool-cases, inl, inr, arith,
}
use cron_agent_dashboard.Prelude.Sort.{unit_le}
use cron_agent_dashboard.Api.Records.{Run, Issue}
use cron_agent_dashboard.Review.{
  same_text, Banner, recovers, find_recovery, review_banner, is_done, is_failed,
}

-- A run of the same agent that is done and whose time is greater as a text; the time of a run is its enqueueing
-- or, where that is missing or empty, its start.
pub record IsRecovery (failed_run run : Run) : Type 0 where
  pub same_agent : run.agent_id ≡ failed_run.agent_id
  pub done : run.status ≡ units "done"
  pub later :
      unit_le
        (or_default (or_text run.enqueued_at run.started_at) [])
        (or_default (or_text failed_run.enqueued_at failed_run.started_at) [])
      ≡ false

same_text_iff : (a b : Option Text) → (same_text a b ≡ true) ↔ (a ≡ b)
unfolding same_text
same_text_iff none none = ground arith
same_text_iff none (some t) = ground arith
same_text_iff (some s) none = ground arith
same_text_iff (some s) (some t) = ground (arith, text_eq_iff s t)

recovers_iff : (failed_run run : Run) → (recovers failed_run run ≡ true) ↔ IsRecovery failed_run run
unfolding recovers
recovers_iff failed_run run = (
  λ h. record {
    same_agent = (same_text_iff run.agent_id failed_run.agent_id).0 (ground (arith, h));
    done = (text_eq_iff run.status (units "done")).0 (ground (arith, h));
    later = ground (arith, h);
  },
  λ r. ground (
    arith,
    (same_text_iff run.agent_id failed_run.agent_id).1 r.same_agent,
    (text_eq_iff run.status (units "done")).1 r.done,
    r.later,
  ),
)

-- What was found is a recovery and stands in the list before any other; or there is none.
abbrev pub IsFound : Run → List Run → Option Run → Type 0
IsFound failed_run runs none = All (λ r. ¬ IsRecovery failed_run r) runs
IsFound failed_run runs (some run) =
    IsRecovery failed_run run
    × (before : List Run) × (behind : List Run) × (runs ≡ before ++ run ∷ behind)
    × All (λ r. ¬ IsRecovery failed_run r) before

find-IsFound :
    (failed_run : Run) (runs : List Run) (found : Option Run)
    → find (recovers failed_run) runs ≡ found
    → IsFound failed_run runs found
find-IsFound failed_run [] none e = tt
find-IsFound failed_run [] (some run) e = cc
find-IsFound failed_run (r ∷ rs) found e = elim (Bool-cases (recovers failed_run r)) [
  | inl h ↦
      let is_r : some r ≡ found = rw h at e in
      subst (IsFound failed_run (r ∷ rs)) is_r ((recovers_iff failed_run r).0 h, [], rs, refl, tt)
  | inr h ↦
      let other : ¬ IsRecovery failed_run r =
        λ k. ground (arith, h, (recovers_iff failed_run r).1 k) in
      go other found (find-IsFound failed_run rs found (rw h at e))
]
  where
    go :
        (¬ IsRecovery failed_run r)
        → (f : Option Run) → IsFound failed_run rs f
        → IsFound failed_run (r ∷ rs) f
    go other none h = (other, h)
    go other (some run) (k, before, behind, same, h) =
        (k, r ∷ before, behind, ap (r ∷◌) same, (other, h))

-- For a failed run `findRecovery` finds the first run of the list that has the same agent, is done, and has a
-- greater time as a text, where the time is the enqueueing or, where that is missing or empty, the start; and it
-- finds nothing only where no run is so.
pub find_recovery-IsFound :
    (failed_run : Run) (runs : List Run) → IsFound failed_run runs (find_recovery failed_run runs)
unfolding find_recovery
find_recovery-IsFound failed_run runs =
    find-IsFound failed_run runs (find (recovers failed_run) runs) refl

not_both : (s : Text) → text_eq s (units "done") ≡ true → text_eq s (units "failed") ≡ true → ⊥
not_both s p q = cc (
  differ,
  (text_eq_iff (units "done") (units "failed")).1
      (sym ((text_eq_iff s (units "done")).0 p) ∙ (text_eq_iff s (units "failed")).0 q),
)
  where
    differ : text_eq (units "done") (units "failed") ≡ false
    differ = unfold text_eq in refl

done_failed_disjoint :
    (runs : List Run) → length (filter is_done runs) + length (filter is_failed runs) ≤ length runs
done_failed_disjoint [] = omega arith
done_failed_disjoint (r ∷ rs) = ground (arith, not_both r.status, done_failed_disjoint rs)

-- What the banner counts fits together: no more failed runs are recovered than there are, and done
-- and failed runs together are no more than the stages.
pub review_banner_counts :
    (issue : Option Issue) (runs : List Run) (b : Banner)
    → review_banner issue runs ≡ some b
    → (b.recovered_count ≤ b.total_failed) × (b.total_done + b.total_failed ≤ b.stages)
unfolding review_banner
review_banner_counts none runs b h = cc
review_banner_counts (some issue) runs b h = ground (
  arith,
  done_failed_disjoint runs,
  length-filter-le (λ r. is_some (find_recovery r runs)) (filter is_failed runs),
)
