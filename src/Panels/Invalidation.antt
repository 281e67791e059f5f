-- ===== src/Panels/Invalidation.antt =====
-- What an action on a chain has read again. Which queries a key that is invalidated reaches is up to TanStack
-- Query, and an argument: those whose own key begins with it, as its documentation says.
use cron_agent_dashboard.Prelude.{
  ◌≡◌, refl, sym, ◌↔◌, inl, inr, ◌≢◌, true, false, Bool, ◌||◌, Option, none, some, List, [], ◌∷◌,
  ◌++◌, any, Text, units, text_eq, text_eq_iff, truthy, arith, Bool-cases, if◌then◌else◌,
}
use mathlib.Core.List.{append-nil}
use cron_agent_dashboard.Api.Records.{Issue}
use cron_agent_dashboard.Api.Queries.{
  KeyPart, word, part, workspace_issue_query, runs_query, comments_query,
}
use cron_agent_dashboard.Panels.{invalidate_after_action}

module _ (reaches : List KeyPart → List KeyPart → Bool)
    (begins : (p key : List KeyPart)
      → (reaches p key ≡ true) ↔ ((rest : List KeyPart) × (key ≡ p ++ rest))) where
  abbrev pub is_read_again : List (List KeyPart) → List KeyPart → Bool
  is_read_again keys key = any (λ p. reaches p key) keys

  apart :
      (s t : Text) (ps ks : List KeyPart)
      → text_eq s t ≡ false
      → reaches (word s ∷ ps) (word t ∷ ks) ≡ false
  apart s t ps ks ne = elim (Bool-cases (reaches (word s ∷ ps) (word t ∷ ks))) [
    | inl e ↦
        let (rest, same) = (begins (word s ∷ ps) (word t ∷ ks)).0 e in
        let equal : t ≡ s = ground (arith, same) in
        absurd (ground (arith, ne, (text_eq_iff s t).1 (sym equal)))
    | inr e ↦ e
  ]

  exact : (key : List KeyPart) → reaches key key ≡ true
  exact key = (begins key key).1 ([], sym (append-nil key))

  reaches_issue :
      (id : Text) (slug identifier : Option Text)
      → (reaches
            (word (units "issue") ∷ word id ∷ [])
            (word (units "issue") ∷ part slug ∷ part identifier ∷ [])
          ≡ true)
        ↔ (slug ≡ some id)
  reaches_issue id none identifier =
      (λ h. let (rest, same) = (begins _ _).0 h in absurd (ground (arith, same)), λ e. cc)
  reaches_issue id (some s) identifier = (
    λ h. let (rest, same) = (begins _ _).0 h in ground (arith, same),
    λ e. (begins _ _).1 (part identifier ∷ [], ground (arith, e)),
  )

  others :
      (workspace : Option Text) (ks : List KeyPart)
      → any
          (λ p. reaches p (word (units "issue") ∷ ks))
          (if truthy workspace
            then (word (units "workspace-runs") ∷ part workspace ∷ [])
              ∷ (word (units "workspace-runs-feed") ∷ part workspace ∷ [])
              ∷ []
            else [])
        ≡ false
  unfolding text_eq
  others none ks = refl
  others (some []) ks = refl
  others (some (c ∷ w)) ks =
      rw
        (
          apart (units "workspace-runs") (units "issue") (word (c ∷ w) ∷ []) ks refl,
          apart (units "workspace-runs-feed") (units "issue") (word (c ∷ w) ∷ []) ks refl,
        )
        refl

  only_first :
      (id : Text) (slug identifier : Option Text) {runs comments rest : Bool}
      → runs ≡ false
      → comments ≡ false
      → rest ≡ false
      → ((reaches
              (word (units "issue") ∷ word id ∷ [])
              (word (units "issue") ∷ part slug ∷ part identifier ∷ [])
            || (runs || (comments || rest)))
          ≡ true)
        ↔ (slug ≡ some id)
  only_first id slug identifier p q r =
      rw (p, q, r)
        (
          λ h. (reaches_issue id slug identifier).0 (ground (arith, h)),
          λ e. ground (arith, (reaches_issue id slug identifier).1 e),
        )

  -- Let a chain be cancelled or retried in the panel of an issue whose id is not empty. The keys
  -- that the panel invalidates have the runs and the comments of the issue read again; but the
  -- issue itself exactly if its id is the slug of the workspace under which it is shown: its key
  -- holds the slug and the identifier, not the id.
  pub invalidate_after_action-workspace_issue_query :
      (id : Text) (workspace : Option Text) (status : Option Text) (last : Option Issue)
      (slug identifier : Option Text)
      → id ≢ []
      → let again = is_read_again (invalidate_after_action (some id) workspace) in
        (again (runs_query (some id) status).key ≡ true)
        × (again (comments_query (some id) status).key ≡ true)
        × ((again (workspace_issue_query last slug identifier).key ≡ true) ↔ (slug ≡ some id))
  unfolding text_eq invalidate_after_action workspace_issue_query runs_query comments_query
  invalidate_after_action-workspace_issue_query [] workspace status last slug identifier ne =
      absurd (ne refl)
  invalidate_after_action-workspace_issue_query (c ∷ id) workspace status last slug identifier ne =
      (
        ground (arith, exact (word (units "runs") ∷ word (c ∷ id) ∷ [])),
        ground (arith, exact (word (units "comments") ∷ word (c ∷ id) ∷ [])),
        only_first (c ∷ id) slug identifier (apart _ (units "issue") _ _ refl)
            (apart _ (units "issue") _ _ refl)
            (others workspace (part slug ∷ part identifier ∷ [])),
      )
