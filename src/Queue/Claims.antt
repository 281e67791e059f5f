-- ===== src/Queue/Claims.antt =====
-- A claim starts one run, where nothing else runs.
use cron_agent_dashboard.Prelude.{
  ◌+◌, ◌≤◌, ◌≡◌, refl, subst, ◌⊎◌, inl, inr, Bool, true, false, not, ◌&&◌, some, List, [], ◌∷◌, map,
  Text, text_eq, text_eq_iff, text_eq_refl, any, filter, All, All-imp, All-filter_of, arith,
  Bool-cases, Option-cases,
}
use cron_agent_dashboard.Prelude.Sort.{All-sort_by}
use cron_agent_dashboard.Prelude.Extremes.{All-both, head_of}
use cron_agent_dashboard.Queue.{
  RunStatus, RunRow, Tables, is_running, has_id, issue_free, workspace_free, eligible,
  claimed_first, next_run, start, claim_next_run, count,
}

-- No two rows have one id.
abbrev pub HasUniqueIds : List RunRow → Type 0
HasUniqueIds runs = (id : Text) → count (has_id id) runs ≤ 1

pub count_none : (p : RunRow → Bool) (xs : List RunRow) → any p xs ≡ false → count p xs ≡ 0
count_none p [] h = refl
count_none p (x ∷ xs) h = ground (arith, count_none p xs)

-- The rows are told apart by a key, which does not depend on their status.
module _ (key : RunRow → Text) where
  abbrev pub running_at : Text → RunRow → Bool
  running_at k r = is_running r && text_eq (key r) k

  abbrev pub same_as : RunRow → RunRow → Bool
  same_as c r = has_id c.id r && text_eq (key r) (key c)

  All-self : (runs : List RunRow) → All (λ c. 1 ≤ count (same_as c) runs) runs
  All-self [] = tt
  All-self (r ∷ rs) = (
    ground (arith, text_eq_refl r.id, text_eq_refl (key r)),
    All-imp (λ c h. ground arith) rs (All-self rs),
  )

  count_apart :
      (id j k : Text) (runs : List RunRow)
      → text_eq j k ≡ false
      → count (λ r. has_id id r && text_eq (key r) j) runs
          + count (λ r. has_id id r && text_eq (key r) k) runs
        ≤ count (has_id id) runs
  count_apart id j k [] h = omega arith
  count_apart id j k (r ∷ rs) h = ground (
    arith,
    count_apart id j k rs h,
    text_eq_iff j k,
    text_eq_iff (key r) j,
    text_eq_iff (key r) k,
  )

  count-within :
      (id k : Text) (runs : List RunRow)
      → count (λ r. has_id id r && text_eq (key r) k) runs ≤ count (has_id id) runs
  count-within id k [] = omega arith
  count-within id k (r ∷ rs) = ground (arith, count-within id k rs)

  module _ (stable : (r : RunRow) → key (record r { status = RunStatus.running }) ≡ key r) where
    count-start :
        (id k : Text) (runs : List RunRow)
        → count (running_at k) (map (start id) runs)
          ≤ count (running_at k) runs + count (λ r. has_id id r && text_eq (key r) k) runs
    count-start id k [] = omega arith
    count-start id k (r ∷ rs) = ground (arith, count-start id k rs, stable r)

    -- A row is started where no other with its key runs: still at most one runs for each key.
    pub start_one :
        (c : RunRow) (k : Text) (runs : List RunRow)
        → HasUniqueIds runs
        → 1 ≤ count (same_as c) runs
        → (text_eq (key c) k ≡ true → count (running_at k) runs ≡ 0)
        → count (running_at k) runs ≤ 1
        → count (running_at k) (map (start c.id) runs) ≤ 1
    start_one c k runs u m free h = elim (Bool-cases (text_eq (key c) k)) [
      | inl e ↦ omega (arith, count-start c.id k runs, count-within c.id k runs, u c.id, free e)
      | inr n ↦ omega (arith, count-start c.id k runs, count_apart c.id (key c) k runs n, u c.id)
    ]

-- A claimed run is in the table, and nothing ran beside it.
pub record Claimable (t : Tables) (runs : List RunRow) (c : RunRow) : Type 0 where
  pub free_on_issue : issue_free runs c ≡ true
  pub free_in_workspace : workspace_free t runs c ≡ true
  pub in_issue : 1 ≤ count (same_as (λ r. r.issue_id) c) runs
  pub in_workspace : 1 ≤ count (same_as (λ r. t.workspace_of r.issue_id) c) runs

All-Claimable :
    (t : Tables) (now : Text) (runs : List RunRow)
    → All (Claimable t runs) (filter (eligible t now runs) runs)
All-Claimable t now runs =
    All-filter_of
      (λ c.
        (1 ≤ count (same_as (λ r. r.issue_id) c) runs)
        × (1 ≤ count (same_as (λ r. t.workspace_of r.issue_id) c) runs))
      (Claimable t runs) (eligible t now runs)
      (λ c m e. record {
        free_on_issue = ground arith;
        free_in_workspace = ground arith;
        in_issue = m.0;
        in_workspace = m.1;
      })
      runs
      (All-both _ _ runs (All-self (λ r. r.issue_id) runs)
        (All-self (λ r. t.workspace_of r.issue_id) runs))

next_run-Claimable :
    (t : Tables) (now : Text) (runs : List RunRow) (c : RunRow)
    → next_run t now runs ≡ some c
    → Claimable t runs c
unfolding next_run
next_run-Claimable t now runs c h =
    head_of (Claimable t runs) _ c
      (All-sort_by claimed_first (Claimable t runs) (filter (eligible t now runs) runs)
        (All-Claimable t now runs))
      h

-- At most one run is running on each issue, and in each workspace that does not give each run its own
-- working directory.
pub record HasOneRunning (t : Tables) (runs : List RunRow) : Type 0 where
  pub one_on_issue : (issue_id : Text) → count (running_at (λ r. r.issue_id) issue_id) runs ≤ 1
  pub one_in_workspace :
      (workspace_id : Text)
      → (t.per_run_worktree workspace_id ≡ true)
        ⊎ (count (running_at (λ r. t.workspace_of r.issue_id) workspace_id) runs ≤ 1)

free_issue :
    (c : RunRow) (k : Text) (runs : List RunRow)
    → issue_free runs c ≡ true
    → text_eq c.issue_id k ≡ true
    → count (running_at (λ r. r.issue_id) k) runs ≡ 0
free_issue c k runs f e =
    let same : c.issue_id ≡ k = (text_eq_iff c.issue_id k).0 e in
    subst (λ x. count (running_at (λ r. r.issue_id) x) runs ≡ 0) same
      (count_none (running_at (λ r. r.issue_id) c.issue_id) runs (ground arith))

any-running_at :
    (t : Tables) (k : Text) (runs : List RunRow)
    → t.per_run_worktree k ≡ false
    → any
        (λ x.
          is_running x
          && text_eq (t.workspace_of x.issue_id) k
          && not (t.per_run_worktree (t.workspace_of x.issue_id)))
        runs
      ≡ any (running_at (λ r. t.workspace_of r.issue_id) k) runs
any-running_at t k [] h = refl
any-running_at t k (r ∷ rs) h =
    ground (arith, any-running_at t k rs h, text_eq_iff (t.workspace_of r.issue_id) k)

free_workspace :
    (t : Tables) (c : RunRow) (k : Text) (runs : List RunRow)
    → workspace_free t runs c ≡ true
    → t.per_run_worktree k ≡ false
    → text_eq (t.workspace_of c.issue_id) k ≡ true
    → count (running_at (λ r. t.workspace_of r.issue_id) k) runs ≡ 0
free_workspace t c k runs f w e =
    let same : t.workspace_of c.issue_id ≡ k = (text_eq_iff (t.workspace_of c.issue_id) k).0 e in
    count_none (running_at (λ r. t.workspace_of r.issue_id) k) runs
      (ground (arith, any-running_at t k runs w, same, f))

-- A claim keeps it so.
pub claim_next_run-HasOneRunning :
    (t : Tables) (now : Text) (runs : List RunRow)
    → HasUniqueIds runs
    → HasOneRunning t runs
    → HasOneRunning t (claim_next_run t now runs).0
unfolding claim_next_run
claim_next_run-HasOneRunning t now runs u v = elim (Option-cases (next_run t now runs)) [
  | inl e ↦ rw (e, claim_next_run) v
  | inr (c, e) ↦
      let m = next_run-Claimable t now runs c e in
      rw (e, claim_next_run)
        (record {
          one_on_issue = λ k.
              start_one (λ r. r.issue_id) (λ r. refl) c k runs u m.in_issue
                (free_issue c k runs m.free_on_issue) (v.one_on_issue k);
          one_in_workspace = λ k. elim (Bool-cases (t.per_run_worktree k)) [
            | inl w ↦ inl w
            | inr w ↦ inr (
                start_one (λ r. t.workspace_of r.issue_id) (λ r. refl) c k runs u m.in_workspace
                  (free_workspace t c k runs m.free_in_workspace w)
                  (ground (arith, v.one_in_workspace k, w)))
          ];
        })
]
