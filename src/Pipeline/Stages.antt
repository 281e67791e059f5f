-- ===== src/Pipeline/Stages.antt =====
-- The strip shows every run once, numbered from the left, and its counts cover them all.
use mathlib.Core.List.{Perm}
use cron_agent_dashboard.Prelude.{
  ℕ, zero, suc, ◌+◌, ◌≡◌, refl, ap, ◌∙◌, List, [], ◌∷◌, Text, Option, map, length, arith,
}
use cron_agent_dashboard.Prelude.Int.{ℤ}
use cron_agent_dashboard.Prelude.Sort.{
  Collation, IsSorted, sort_by, sort_by-perm, sort_by-IsSorted, IsTotal-on, length-sort_by,
}
use cron_agent_dashboard.Api.Records.{Run}
use cron_agent_dashboard.Pipeline.{
  done, running, queued, failed, cancelled, retrying, Stage, stages, number_stages, count_of,
  sort_le, sort_key,
}

runs-number_stages :
    (time : Text → Option ℤ) (i : ℕ) (runs : List Run)
    → map (λ s. s.run) (number_stages time i runs) ≡ runs
unfolding number_stages
runs-number_stages time i [] = refl
runs-number_stages time i (r ∷ rs) = ap (r ∷◌) (runs-number_stages time (suc i) rs)

-- `from i n` is the list of the `n` numbers from `i` on.
abbrev pub from : ℕ → ℕ → List ℕ
from i zero = []
from i (suc n) = i ∷ from (suc i) n

indices-number_stages :
    (time : Text → Option ℤ) (i : ℕ) (runs : List Run)
    → map (λ s. s.index) (number_stages time i runs) ≡ from i (length runs)
unfolding number_stages
indices-number_stages time i [] = refl
indices-number_stages time i (r ∷ rs) = ap (i ∷◌) (indices-number_stages time (suc i) rs)

-- The stages show the given runs, each as often as it is given, oldest first, and are numbered
-- 0, 1, 2 and so on.
pub stages-perm :
    (time : Text → Option ℤ) (loc : Collation) (runs : List Run)
    → let shown = stages time loc runs in
      Perm (map (λ s. s.run) shown) runs
      × IsSorted (sort_le loc) (map (λ s. s.run) shown)
      × (map (λ s. s.index) shown ≡ from 0 (length runs))
unfolding stages
stages-perm time loc runs =
    let sorted = sort_by (sort_le loc) runs in
    (
      rw (runs-number_stages time 0 sorted) (sort_by-perm (sort_le loc) runs),
      rw (runs-number_stages time 0 sorted)
          (sort_by-IsSorted (IsTotal-on sort_key loc.le-IsTotal) runs),
      indices-number_stages time 0 sorted ∙ ap (from 0) (length-sort_by (sort_le loc) runs),
    )

-- The six states of a stage exclude one another and leave none out.
count_all :
    (xs : List Stage)
    → count_of done xs
        + count_of running xs
        + count_of queued xs
        + count_of failed xs
        + count_of cancelled xs
        + count_of retrying xs
      ≡ length xs
count_all [] = refl
count_all (s ∷ xs) = ground (arith, count_all xs)

length-number_stages :
    (time : Text → Option ℤ) (i : ℕ) (runs : List Run)
    → length (number_stages time i runs) ≡ length runs
unfolding number_stages
length-number_stages time i [] = refl
length-number_stages time i (r ∷ rs) = ap suc (length-number_stages time (suc i) rs)

-- Every run is counted under exactly one of the six states.
pub count_of_total :
    (time : Text → Option ℤ) (loc : Collation) (runs : List Run)
    → let shown = stages time loc runs in
      count_of done shown
        + count_of running shown
        + count_of queued shown
        + count_of failed shown
        + count_of cancelled shown
        + count_of retrying shown
      ≡ length runs
unfolding stages
count_of_total time loc runs =
    let sorted = sort_by (sort_le loc) runs in
    count_all (number_stages time 0 sorted)
    ∙ length-number_stages time 0 sorted
    ∙ length-sort_by (sort_le loc) runs
