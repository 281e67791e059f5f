-- ===== src/Chains/Conserved.antt =====
-- The runs of all chains together.
use mathlib.Core.List.{Perm, append-nil, append_assoc, perm_middle, perm_append_comm}
use cron_agent_dashboard.Prelude.{
  Bool, List, [], ◌∷◌, ◌++◌, map, Text, text_eq, Bool-cases, inl, inr,
}
use cron_agent_dashboard.Prelude.Sort.{Collation, sort_by, insert_by, sort_by-perm}
use cron_agent_dashboard.Api.Records.{Run}
use cron_agent_dashboard.Chains.{
  ChainSummary, chain_key, add_run, empty_summary, put_run, group_runs, enqueued_le, newest_first,
  finish, summarize_chains,
}
use mathlib.Core.List.Perm

-- the runs of all chains, chain after chain
abbrev pub all_runs : List ChainSummary → List Run
all_runs [] = []
all_runs (g ∷ gs) = g.runs ++ all_runs gs

all_runs-put_run :
    (key : Text) (run : Run) (gs : List ChainSummary)
    → Perm (all_runs (put_run key run gs)) (run ∷ all_runs gs)
unfolding put_run add_run empty_summary
all_runs-put_run key run [] = Perm.refl _
all_runs-put_run key run (g ∷ gs) = elim (Bool-cases (text_eq g.chain_id key)) [
  | inl e ↦ rw (e, append_assoc) (perm_middle g.runs (all_runs gs))
  | inr n ↦ rw n (
      Perm.trans (Perm.append (Perm.refl g.runs) (all_runs-put_run key run gs))
        (perm_middle g.runs (all_runs gs)))
]

all_runs-group_runs :
    (gs : List ChainSummary) (runs : List Run)
    → Perm (all_runs (group_runs gs runs)) (runs ++ all_runs gs)
unfolding group_runs
all_runs-group_runs gs [] = Perm.refl _
all_runs-group_runs gs (run ∷ rest) =
    Perm.trans (all_runs-group_runs (put_run (chain_key run) run gs) rest) (
      Perm.trans (Perm.append (Perm.refl rest) (all_runs-put_run (chain_key run) run gs))
        (perm_middle rest (all_runs gs)))

all_runs-insert_by :
    (le : ChainSummary → ChainSummary → Bool) (g : ChainSummary) (gs : List ChainSummary)
    → Perm (all_runs (insert_by le g gs)) (g.runs ++ all_runs gs)
unfolding insert_by
all_runs-insert_by le g [] = Perm.refl _
all_runs-insert_by le g (x ∷ gs) = elim (Bool-cases (le g x)) [
  | inl e ↦ rw e (Perm.refl _)
  | inr n ↦ rw n (
      Perm.trans (Perm.append (Perm.refl x.runs) (all_runs-insert_by le g gs))
        (swap_blocks x.runs g.runs (all_runs gs)))
]
  where
    swap_blocks : (a b c : List Run) → Perm (a ++ (b ++ c)) (b ++ (a ++ c))
    swap_blocks a b c =
        rw (← append_assoc a b c, ← append_assoc b a c)
          (Perm.append (perm_append_comm a b) (Perm.refl c))

all_runs-sort_by :
    (le : ChainSummary → ChainSummary → Bool) (gs : List ChainSummary)
    → Perm (all_runs (sort_by le gs)) (all_runs gs)
unfolding sort_by
all_runs-sort_by le [] = Perm.refl _
all_runs-sort_by le (g ∷ gs) =
    Perm.trans (all_runs-insert_by le g (sort_by le gs))
      (Perm.append (Perm.refl g.runs) (all_runs-sort_by le gs))

all_runs-finish :
    (loc : Collation) (gs : List ChainSummary) → Perm (all_runs (map (finish loc) gs)) (all_runs gs)
unfolding finish
all_runs-finish loc [] = Perm.refl _
all_runs-finish loc (g ∷ gs) =
    Perm.append (sort_by-perm (enqueued_le loc) g.runs) (all_runs-finish loc gs)

-- Every run stands in exactly one chain: the chains together hold the given runs, as often.
pub summarize_chains-perm :
    (loc : Collation) (runs : List Run) → Perm (all_runs (summarize_chains loc runs)) runs
unfolding summarize_chains
summarize_chains-perm loc runs = Perm.trans (all_runs-sort_by (newest_first loc) _) (
    Perm.trans (all_runs-finish loc (group_runs [] runs))
      (rw append-nil at (all_runs-group_runs [] runs)))
