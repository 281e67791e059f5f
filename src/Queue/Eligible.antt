-- ===== src/Queue/Eligible.antt =====
-- Which runs may be claimed: the condition of `ClaimNextRun` in other words.
use cron_agent_dashboard.Prelude.{
  ◌↔◌, not, ◌&&◌, ◌||◌, ◌⊎◌, ◌≡◌, ap, Bool, true, false, Option, none, some, List, [], ◌∷◌, arith,
  Text, text_eq, text_eq_iff, All,
}
use cron_agent_dashboard.Prelude.Sort.{unit_le}
use cron_agent_dashboard.Queue.{
  RunStatus, is_due, issue_free, workspace_free, is_running, RunRow, Tables, eligible,
}

abbrev pub IsDue : Text → Option Text → Type 0
IsDue now none = Unit
IsDue now (some at) = (at ≡ []) ⊎ (unit_le at now ≡ true)

-- Another run keeps this one waiting: it is running on its issue, or in its workspace where that gives no run a
-- working directory of its own.
abbrev pub IsAhead : Tables → RunRow → RunRow → Type 0
IsAhead t r x =
    (x.status ≡ RunStatus.running)
    × ((x.issue_id ≡ r.issue_id)
        ⊎ ((t.workspace_of x.issue_id ≡ t.workspace_of r.issue_id)
            × (t.per_run_worktree (t.workspace_of r.issue_id) ≡ false)))

-- The run is queued, due, and no run of the table keeps it waiting.
pub record IsClaimable (t : Tables) (now : Text) (runs : List RunRow) (r : RunRow) : Type 0 where
  pub queued : r.status ≡ RunStatus.queued
  pub due : IsDue now r.next_retry_at
  pub alone : All (λ x. ¬ IsAhead t r x) runs

is_queued_status :
    (s : RunStatus)
    → ((elim s as (λ _. Bool) [ RunStatus.queued ↦ true | _ ↦ false ]) ≡ true)
      ↔ (s ≡ RunStatus.queued)
is_queued_status s = ground arith

is_due-IsDue : (now : Text) (at : Option Text) → (is_due now at ≡ true) ↔ IsDue now at
is_due-IsDue now none = ground arith
is_due-IsDue now (some []) = ground arith
is_due-IsDue now (some (c ∷ at)) = ground arith

-- The two tests of the claim, of one other run
abbrev is_ahead : Tables → RunRow → RunRow → Bool
is_ahead t r x =
    is_running x
    && (text_eq x.issue_id r.issue_id
        || (text_eq (t.workspace_of x.issue_id) (t.workspace_of r.issue_id)
            && not (t.per_run_worktree (t.workspace_of r.issue_id))))

is_ahead_iff : (t : Tables) (r x : RunRow) → (is_ahead t r x ≡ false) ↔ ¬ IsAhead t r x
is_ahead_iff t r x = ground (
  arith,
  text_eq_iff x.issue_id r.issue_id,
  text_eq_iff (t.workspace_of x.issue_id) (t.workspace_of r.issue_id),
)

free-cons :
    (t : Tables) (r x : RunRow) (xs : List RunRow)
    → (issue_free (x ∷ xs) r && workspace_free t (x ∷ xs) r)
      ≡ (not (is_ahead t r x) && (issue_free xs r && workspace_free t xs r))
free-cons t r x xs =
    regroup (is_running x) _ (text_eq (t.workspace_of x.issue_id) (t.workspace_of r.issue_id)) _ _ _
      _ (λ e. ap t.per_run_worktree ((text_eq_iff _ _).0 e))
  where
    regroup :
        (running on_issue in_workspace own other_own issue_busy workspace_busy : Bool)
        → (in_workspace ≡ true → other_own ≡ own)
        → (not (running && on_issue || issue_busy)
            && (own || not (running && in_workspace && not other_own || workspace_busy)))
          ≡ (not (running && (on_issue || in_workspace && not own))
              && (not issue_busy && (own || not workspace_busy)))
    regroup running on_issue in_workspace own other_own issue_busy workspace_busy h =
        ground (arith, h)

free_iff :
    (t : Tables) (r : RunRow) (runs : List RunRow)
    → ((issue_free runs r && workspace_free t runs r) ≡ true) ↔ All (λ x. ¬ IsAhead t r x) runs
free_iff t r [] = ground arith
free_iff t r (x ∷ xs) = rw (free-cons t r x xs) (
  λ h. ((is_ahead_iff t r x).0 (ground (arith, h)), (free_iff t r xs).0 (ground (arith, h))),
  λ h. ground (arith, (is_ahead_iff t r x).1 h.0, (free_iff t r xs).1 h.1),
)

pub eligible_iff :
    (t : Tables) (now : Text) (runs : List RunRow) (r : RunRow)
    → (eligible t now runs r ≡ true) ↔ IsClaimable t now runs r
eligible_iff t now runs r = (
  λ h. record {
    queued = (is_queued_status r.status).0 (ground (arith, h));
    due = (is_due-IsDue now r.next_retry_at).0 (ground (arith, h));
    alone = (free_iff t r runs).0 (ground (arith, h));
  },
  λ c. ground (
    arith,
    (is_queued_status r.status).1 c.queued,
    (is_due-IsDue now r.next_retry_at).1 c.due,
    (free_iff t r runs).1 c.alone,
  ),
)
