-- ===== src/Chains/Order.antt =====
-- The order of the panel: chains newest first, the runs of each oldest first, and what the summary
-- says of its first and last run.
use cron_agent_dashboard.Prelude.{
  ◌≡◌, refl, some, List, [], ◌∷◌, All, head?, get_last?, text_or_empty, sym, ap, ◌∙◌, subst, ◌≢◌,
  ◌⊎◌, inl, inr, true, ◌++◌, arith, Text, text_eq, text_eq_iff, filter, length, Bool-cases,
  All-filter_of,
}
use cron_agent_dashboard.Prelude.Sort.{
  length-sort_by, sort_by, All-sort_by, Collation, IsSorted, IsTotal, IsTotal-on, IsTotal-flip,
  sort_by-IsSorted,
}
use cron_agent_dashboard.Api.Records.{Run}
use mathlib.Core.List.{Memᴰ}
use cron_agent_dashboard.Chains.{
  chain_key, put_run, add_run, empty_summary, ChainSummary, field, enqueued_le, newest_first,
  finish, summarize_chains, group_runs,
}
use cron_agent_dashboard.Chains.Groups.{All-finish, has_key, group_runs-filter}
use cron_agent_dashboard.Prelude.Extremes.{
  members, All-both, head_of, last_of, All-unfilter, All-of_sort_by, head_sorted, last_sorted,
}

module _ (loc : Collation) where
  enqueued_le-IsTotal : IsTotal (enqueued_le loc)
  enqueued_le-IsTotal = IsTotal-on (λ r. text_or_empty r.enqueued_at) loc.le-IsTotal

  newest_first-IsTotal : IsTotal (newest_first loc)
  newest_first-IsTotal =
      IsTotal-flip (IsTotal-on (λ s. text_or_empty s.first_enqueued_at) loc.le-IsTotal)

  -- This run of the list is one of the chain's, and it was enqueued no later than any of them.
  pub record IsFirst (runs : List Run) (chain_id : Text) (run : Run) : Type 0 where
    pub is_in : Memᴰ run runs
    pub of_chain : chain_key run ≡ chain_id
    pub earliest :
        All
          (λ r.
            (¬ (chain_key r ≡ chain_id))
            ⊎ (loc.le (text_or_empty run.enqueued_at) (text_or_empty r.enqueued_at) ≡ true))
          runs

  -- The same with no earlier
  pub record IsLast (runs : List Run) (chain_id : Text) (run : Run) : Type 0 where
    pub is_in : Memᴰ run runs
    pub of_chain : chain_key run ≡ chain_id
    pub latest :
        All
          (λ r.
            (¬ (chain_key r ≡ chain_id))
            ⊎ (loc.le (text_or_empty r.enqueued_at) (text_or_empty run.enqueued_at) ≡ true))
          runs

  -- The summary takes its first enqueueing from a first run of its chain, its status and agent from a last one.
  abbrev pub Spans : List Run → ChainSummary → Type 0
  Spans runs s =
      (first : Run) × (last : Run) × IsFirst runs s.chain_id first
      × IsLast runs s.chain_id last
      × (s.first_enqueued_at ≡ first.enqueued_at)
      × (s.last_status ≡ some last.status)
      × (s.last_agent_name ≡ last.agent_name)

  IsNonempty-put_run :
      (key : Text) (run : Run) (gs : List ChainSummary)
      → All (λ g. g.runs ≢ []) gs
      → All (λ g. g.runs ≢ []) (put_run key run gs)
  unfolding put_run add_run empty_summary
  IsNonempty-put_run key run [] h = (λ e. cc, tt)
  IsNonempty-put_run key run (g ∷ gs) h = elim (Bool-cases (text_eq g.chain_id key)) [
    | inl e ↦ rw e (snoc g.runs, h.1)
    | inr n ↦ rw n (h.0, IsNonempty-put_run key run gs h.1)
  ]
    where
      snoc : (xs : List Run) → (xs ++ run ∷ []) ≢ []
      snoc [] e = cc
      snoc (x ∷ xs) e = cc

  IsNonempty-group_runs :
      (gs : List ChainSummary) (runs : List Run)
      → All (λ g. g.runs ≢ []) gs
      → All (λ g. g.runs ≢ []) (group_runs gs runs)
  unfolding group_runs
  IsNonempty-group_runs gs [] h = h
  IsNonempty-group_runs gs (run ∷ rest) h =
      IsNonempty-group_runs (put_run (chain_key run) run gs) rest
        (IsNonempty-put_run (chain_key run) run gs h)

  ends :
      (xs : List Run)
      → length xs ≢ 0
      → (first : Run) × (last : Run) × (head? xs ≡ some first) × (get_last? xs ≡ some last)
  ends [] h = absurd (h refl)
  ends (x ∷ []) h = (x, x, refl, refl)
  ends (x ∷ y ∷ xs) h =
      let (first, last, p, q) = ends (y ∷ xs) (λ e. omega (arith, e)) in (x, last, refl, q)

  has_ends :
      (g : ChainSummary)
      → g.runs ≢ []
      → let xs = sort_by (enqueued_le loc) g.runs in
        (first : Run) × (last : Run) × (head? xs ≡ some first) × (get_last? xs ≡ some last)
  has_ends g ne =
      ends (sort_by (enqueued_le loc) g.runs)
        (λ e. none_long g.runs ne (sym (length-sort_by (enqueued_le loc) g.runs) ∙ e))
    where
      none_long : (xs : List Run) → xs ≢ [] → length xs ≢ 0
      none_long [] n e = n refl
      none_long (x ∷ xs) n e = omega (arith, e)

  module _ (runs : List Run) (g : ChainSummary)
      (own : g.runs ≡ filter (has_key g.chain_id) runs) where
    -- The runs of a group are those of the list with its key.
    All-own : All (λ c. Memᴰ c runs × (chain_key c ≡ g.chain_id)) (sort_by (enqueued_le loc) g.runs)
    All-own = All-sort_by (enqueued_le loc) _ g.runs (
        subst (All (λ c. Memᴰ c runs × (chain_key c ≡ g.chain_id))) (sym own) (
          All-filter_of (λ c. Memᴰ c runs) _ (has_key g.chain_id)
            (λ c m e. (m, (text_eq_iff (chain_key c) g.chain_id).0 e)) runs (members runs)))

    All-others :
        (Q : Run → Type 0)
        → All Q (sort_by (enqueued_le loc) g.runs)
        → All (λ r. (¬ (chain_key r ≡ g.chain_id)) ⊎ Q r) runs
    All-others Q h =
        All-unfilter (has_key g.chain_id) (λ r. chain_key r ≡ g.chain_id) Q
          (λ r. (text_eq_iff (chain_key r) g.chain_id).1) runs
          (subst (All Q) own (All-of_sort_by (enqueued_le loc) Q g.runs h))

    finish-Spans : g.runs ≢ [] → Spans runs (finish loc g)
    unfolding finish
    finish-Spans ne =
        let xs = sort_by (enqueued_le loc) g.runs in
        let (first, last, p, q) = has_ends g ne in
        let (in_first, key_first) = head_of _ xs first All-own p in
        let (in_last, key_last) = last_of _ xs last All-own q in
        let sorted = sort_by-IsSorted enqueued_le-IsTotal g.runs in
        (
          first,
          last,
          record {
            is_in = in_first;
            of_chain = key_first;
            earliest = All-others _ (head_sorted enqueued_le-IsTotal first xs sorted p);
          },
          record {
            is_in = in_last;
            of_chain = key_last;
            latest = All-others _ (last_sorted enqueued_le-IsTotal last xs sorted q);
          },
          ap (λ o. field o (λ r. r.enqueued_at)) p,
          ap (λ o. field o (λ r. some r.status)) q,
          ap (λ o. field o (λ r. r.agent_name)) q,
        )

  -- The summaries stand by their first enqueueing, the latest first. For each of them some run of its chain was
  -- enqueued no later than any run of the chain, and is the one whose enqueueing the summary gives; and some run of
  -- the chain was enqueued no earlier than any, and the summary gives its status and its agent. Times are compared
  -- by the host's collation, a missing one as the empty text.
  pub summarize_chains-IsSorted :
      (runs : List Run)
      → IsSorted
          (λ a b. loc.le (text_or_empty b.first_enqueued_at) (text_or_empty a.first_enqueued_at))
          (summarize_chains loc runs)
        × All (Spans runs) (summarize_chains loc runs)
  unfolding summarize_chains
  summarize_chains-IsSorted runs = (
    sort_by-IsSorted newest_first-IsTotal _,
    All-finish loc (λ g. (g.runs ≢ []) × (g.runs ≡ filter (has_key g.chain_id) runs)) _
        (λ g h. finish-Spans runs g h.1 h.0) (group_runs [] runs)
        (All-both _ _ _ (IsNonempty-group_runs [] runs tt) (group_runs-filter runs)),
  )
