-- ===== src/Chains/Groups.antt =====
-- How the runs are divided among the chains.
use mathlib.Core.List.{append-nil, append_assoc}
use cron_agent_dashboard.Prelude.{
  ◌≡◌, refl, sym, ◌∙◌, ap, ◌≢◌, Bool, true, false, List, [], ◌∷◌, ◌++◌, map, Text, text_eq,
  text_eq_iff, text_eq_refl, Bool-cases, inl, inr, filter, All, All-imp, arith, if◌then◌else◌,
}
use cron_agent_dashboard.Prelude.Sort.{Collation, sort_by, insert_by, All-insert_by, All-sort_by}
use cron_agent_dashboard.Api.Records.{Run}
use cron_agent_dashboard.Chains.{
  ChainSummary, chain_key, add_run, empty_summary, put_run, group_runs, enqueued_le, newest_first,
  finish, summarize_chains,
}

abbrev pub IsFresh : Text → List ChainSummary → Type 0
IsFresh key = All (λ g. g.chain_id ≢ key)

-- no two chains under one key
abbrev pub HasDistinctIds : List ChainSummary → Type 0
HasDistinctIds [] = Unit
HasDistinctIds (g ∷ gs) = IsFresh g.chain_id gs × HasDistinctIds gs

-- the runs under `key`, none if there is no such chain
runs_of : Text → List ChainSummary → List Run
runs_of key [] = []
runs_of key (g ∷ gs) = if text_eq g.chain_id key then g.runs else runs_of key gs

abbrev pub has_key : Text → Run → Bool
has_key key run = text_eq (chain_key run) key

differ : (s t : Text) → text_eq s t ≡ false → s ≢ t
differ s t n e = ground (arith, text_eq_iff s t)

runs_of-put_run :
    (k key : Text) (run : Run) (gs : List ChainSummary)
    → runs_of k (put_run key run gs)
      ≡ (if text_eq key k then runs_of k gs ++ run ∷ [] else runs_of k gs)
unfolding runs_of put_run add_run empty_summary
runs_of-put_run k key run [] = refl
runs_of-put_run k key run (g ∷ gs) = ground (
  arith,
  text_eq_iff g.chain_id key,
  text_eq_iff key k,
  text_eq_iff g.chain_id k,
  runs_of-put_run k key run gs,
)

-- Under each key the runs stand that have it, in the order in which they came.
runs_of-group_runs :
    (k : Text) (gs : List ChainSummary) (runs : List Run)
    → runs_of k (group_runs gs runs) ≡ runs_of k gs ++ filter (has_key k) runs
unfolding group_runs
runs_of-group_runs k gs [] = sym (append-nil _)
runs_of-group_runs k gs (run ∷ rest) =
    runs_of-group_runs k (put_run (chain_key run) run gs) rest
    ∙ rw (runs_of-put_run k (chain_key run) run gs) (on (has_key k run))
  where
    on :
        (b : Bool)
        → (if b then runs_of k gs ++ run ∷ [] else runs_of k gs) ++ filter (has_key k) rest
          ≡ runs_of k gs ++ (if b then run ∷ filter (has_key k) rest else filter (has_key k) rest)
    on true = append_assoc (runs_of k gs) (run ∷ []) (filter (has_key k) rest)
    on false = refl

IsFresh-put_run :
    (k key : Text) (run : Run) (gs : List ChainSummary)
    → key ≢ k
    → IsFresh k gs
    → IsFresh k (put_run key run gs)
unfolding put_run add_run empty_summary
IsFresh-put_run k key run [] ne h = (ne, tt)
IsFresh-put_run k key run (g ∷ gs) ne h = elim (Bool-cases (text_eq g.chain_id key)) [
  | inl e ↦ rw e h
  | inr n ↦ rw n (h.0, IsFresh-put_run k key run gs ne h.1)
]

HasDistinctIds-put_run :
    (key : Text) (run : Run) (gs : List ChainSummary)
    → HasDistinctIds gs
    → HasDistinctIds (put_run key run gs)
unfolding put_run add_run empty_summary
HasDistinctIds-put_run key run [] h = (tt, tt)
HasDistinctIds-put_run key run (g ∷ gs) h = elim (Bool-cases (text_eq g.chain_id key)) [
  | inl e ↦ rw e h
  | inr n ↦ rw n (
    IsFresh-put_run g.chain_id key run gs (λ e. differ g.chain_id key n (sym e)) h.0,
    HasDistinctIds-put_run key run gs h.1,
  )
]

HasDistinctIds-group_runs :
    (gs : List ChainSummary) (runs : List Run)
    → HasDistinctIds gs
    → HasDistinctIds (group_runs gs runs)
unfolding group_runs
HasDistinctIds-group_runs gs [] h = h
HasDistinctIds-group_runs gs (run ∷ rest) h =
    HasDistinctIds-group_runs (put_run (chain_key run) run gs) rest
      (HasDistinctIds-put_run (chain_key run) run gs h)

-- With distinct keys each chain is found under its own.
runs_of_self :
    (gs : List ChainSummary) → HasDistinctIds gs → All (λ g. runs_of g.chain_id gs ≡ g.runs) gs
unfolding runs_of
runs_of_self [] h = tt
runs_of_self (g ∷ gs) h = (rw (text_eq_refl g.chain_id), All-zip gs h.0 (runs_of_self gs h.1))
  where
    All-zip :
        (xs : List ChainSummary)
        → IsFresh g.chain_id xs
        → All (λ x. runs_of x.chain_id gs ≡ x.runs) xs
        → All (λ x. runs_of x.chain_id (g ∷ gs) ≡ x.runs) xs
    All-zip [] p q = tt
    All-zip (x ∷ xs) p q =
        (ground (arith, text_eq_iff g.chain_id x.chain_id, p.0, q.0), All-zip xs p.1 q.1)

-- After the first loop each group has the runs with its key, in the order in which they came.
pub group_runs-filter :
    (runs : List Run) → All (λ g. g.runs ≡ filter (has_key g.chain_id) runs) (group_runs [] runs)
unfolding runs_of
group_runs-filter runs =
    All-imp (λ g e. sym e ∙ runs_of-group_runs g.chain_id [] runs) (group_runs [] runs)
      (runs_of_self _ (HasDistinctIds-group_runs [] runs tt))

IsFresh-insert_by :
    (le : ChainSummary → ChainSummary → Bool) (k : Text) (g : ChainSummary) (gs : List ChainSummary)
    → g.chain_id ≢ k
    → IsFresh k gs
    → IsFresh k (insert_by le g gs)
IsFresh-insert_by le k g gs p h = All-insert_by le (λ x. x.chain_id ≢ k) g gs p h

HasDistinctIds-insert_by :
    (le : ChainSummary → ChainSummary → Bool) (g : ChainSummary) (gs : List ChainSummary)
    → IsFresh g.chain_id gs
    → HasDistinctIds gs
    → HasDistinctIds (insert_by le g gs)
unfolding insert_by
HasDistinctIds-insert_by le g [] p h = (tt, tt)
HasDistinctIds-insert_by le g (x ∷ gs) p h = elim (Bool-cases (le g x)) [
  | inl e ↦ rw e (p, h)
  | inr n ↦ rw n (
    IsFresh-insert_by le x.chain_id g gs (λ e. p.0 (sym e)) h.0,
    HasDistinctIds-insert_by le g gs p.1 h.1,
  )
]

HasDistinctIds-sort_by :
    (le : ChainSummary → ChainSummary → Bool) (gs : List ChainSummary)
    → HasDistinctIds gs
    → HasDistinctIds (sort_by le gs)
unfolding sort_by
HasDistinctIds-sort_by le [] h = tt
HasDistinctIds-sort_by le (g ∷ gs) h =
    HasDistinctIds-insert_by le g (sort_by le gs)
      (All-sort_by le (λ x. x.chain_id ≢ g.chain_id) gs h.0) (HasDistinctIds-sort_by le gs h.1)

module _ (loc : Collation) where
  finish-IsFresh :
      (k : Text) (gs : List ChainSummary) → IsFresh k gs → IsFresh k (map (finish loc) gs)
  unfolding finish
  finish-IsFresh k [] h = tt
  finish-IsFresh k (g ∷ gs) h = (h.0, finish-IsFresh k gs h.1)

  HasDistinctIds-finish :
      (gs : List ChainSummary) → HasDistinctIds gs → HasDistinctIds (map (finish loc) gs)
  unfolding finish
  HasDistinctIds-finish [] h = tt
  HasDistinctIds-finish (g ∷ gs) h =
      (finish-IsFresh g.chain_id gs h.0, HasDistinctIds-finish gs h.1)

  -- What holds of each group after the first loop holds of its summary.
  pub All-finish {κ} :
      (P Q : ChainSummary → Type κ)
      → ((g : ChainSummary) → P g → Q (finish loc g))
      → (gs : List ChainSummary) → All P gs
      → All Q (sort_by (newest_first loc) (map (finish loc) gs))
  All-finish P Q f gs h = All-sort_by (newest_first loc) Q (map (finish loc) gs) (each gs h)
    where
      each : (xs : List ChainSummary) → All P xs → All Q (map (finish loc) xs)
      each [] k = tt
      each (x ∷ xs) k = (f x k.0, each xs k.1)

  -- No chain appears twice, and the runs of each are exactly the given runs with its key, in order
  -- of enqueueing.
  pub summarize_chains-groups :
      (runs : List Run)
      → HasDistinctIds (summarize_chains loc runs)
        × All
            (λ s. s.runs ≡ sort_by (enqueued_le loc) (filter (has_key s.chain_id) runs))
            (summarize_chains loc runs)
  unfolding summarize_chains
  summarize_chains-groups runs = (
    HasDistinctIds-sort_by (newest_first loc) _
        (HasDistinctIds-finish _ (HasDistinctIds-group_runs [] runs tt)),
    All-finish (λ g. g.runs ≡ filter (has_key g.chain_id) runs) _
        (λ g e. ap (sort_by (enqueued_le loc)) e) (group_runs [] runs) (group_runs-filter runs),
  )
