-- ===== src/Queue/Order.antt =====
-- In which order runs are claimed.
use mathlib.Core.List.{Memᴰ}
use cron_agent_dashboard.Queue.Eligible.{IsClaimable, eligible_iff}
use cron_agent_dashboard.Prelude.Extremes.{
  members, head_of, All-unfilter, All-of_sort_by, head_sorted,
}
use cron_agent_dashboard.Prelude.{
  ◌↔◌, ◌⊎◌, All-imp, All-filter_of, ℕ, ◌≤◌, ◌≡◌, refl, inl, inr, Bool, true, false, Option, none,
  some, List, [], ◌∷◌, ◌++◌, arith, Text, text_eq, text_eq_iff, filter, length, head?, Bool-cases,
  All,
}
use cron_agent_dashboard.Prelude.Sort.{
  All-sort_by, unit_le, sort_by, IsTotal, sort_by-IsSorted, length-sort_by, unit_le_total,
  unit_le_trans,
}
use cron_agent_dashboard.Queue.{RunRow, Tables, claimed_first, eligible, next_run}

unit_le_antisym : (s t : Text) → unit_le s t ≡ true → unit_le t s ≡ true → s ≡ t
unfolding unit_le
unit_le_antisym [] [] p q = refl
unit_le_antisym [] (d ∷ t) p q = absurd (ground (arith, q))
unit_le_antisym (c ∷ s) [] p q = absurd (ground (arith, p))
unit_le_antisym (c ∷ s) (d ∷ t) p q = ground (arith, unit_le_antisym s t, p, q)

claimed_first-IsTotal : IsTotal claimed_first
claimed_first-IsTotal = record {
  total = λ a b. ground (
    arith,
    unit_le_total a.id b.id,
    unit_le_total a.enqueued_at b.enqueued_at,
    text_eq_iff a.enqueued_at b.enqueued_at,
    text_eq_iff b.enqueued_at a.enqueued_at,
  );
  trans = λ a b c p q. ground (
    arith,
    p,
    q,
    unit_le_trans a.id b.id c.id,
    unit_le_trans a.enqueued_at b.enqueued_at c.enqueued_at,
    unit_le_antisym a.enqueued_at b.enqueued_at,
    text_eq_iff a.enqueued_at b.enqueued_at,
    text_eq_iff b.enqueued_at c.enqueued_at,
    text_eq_iff a.enqueued_at c.enqueued_at,
  );
}

-- Enqueued earlier, as texts, or at the same instant under no greater id
abbrev pub IsBefore : RunRow → RunRow → Type 0
IsBefore a b =
    (unit_le b.enqueued_at a.enqueued_at ≡ false)
    ⊎ ((a.enqueued_at ≡ b.enqueued_at) × (unit_le a.id b.id ≡ true))

claimed_first-IsBefore : (a b : RunRow) → claimed_first a b ≡ true → IsBefore a b
claimed_first-IsBefore a b h = elim (Bool-cases (text_eq a.enqueued_at b.enqueued_at)) [
  | inl e ↦ inr ((text_eq_iff a.enqueued_at b.enqueued_at).0 e, ground (arith, h, e))
  | inr e ↦ elim (Bool-cases (unit_le b.enqueued_at a.enqueued_at)) [
    | inl f ↦ absurd (
        ground (
          arith,
          unit_le_antisym a.enqueued_at b.enqueued_at,
          h,
          e,
          f,
          text_eq_iff a.enqueued_at b.enqueued_at,
        ))
    | inr f ↦ inl f
  ]
]

-- This is the first of the rows that satisfy a predicate: it is one of them, and before the others.
abbrev pub IsFirst : (RunRow → Type 0) → List RunRow → Option RunRow → Type 0
IsFirst P xs none = All (λ r. ¬ P r) xs
IsFirst P xs (some c) = Memᴰ c xs × P c × All (λ r. (¬ P r) ⊎ IsBefore c r) xs

module _ (p : RunRow → Bool) (P : RunRow → Type 0)
    (decides : (r : RunRow) → (p r ≡ true) ↔ P r) where
  none_of :
      (ys xs : List RunRow)
      → head? ys ≡ none
      → length ys ≡ length (filter p xs)
      → All (λ r. ¬ P r) xs
  none_of [] [] e l = tt
  none_of (y ∷ ys) xs e l = cc
  none_of [] (x ∷ xs) e l = elim (Bool-cases (p x)) [
    | inl f ↦ absurd (ground (arith, f, l))
    | inr f ↦ (λ q. ground (arith, f, (decides x).1 q), none_of [] xs e (ground (arith, f, l)))
  ]

  head-IsFirst :
      (c : Option RunRow) (runs : List RunRow)
      → head? (sort_by claimed_first (filter p runs)) ≡ c
      → IsFirst P runs c
  head-IsFirst none runs e =
      none_of (sort_by claimed_first (filter p runs)) runs e
        (length-sort_by claimed_first (filter p runs))
  head-IsFirst (some c) runs e =
      let xs = filter p runs in
      let (m, k) =
        head_of (λ c. Memᴰ c runs × P c) (sort_by claimed_first xs) c
          (All-sort_by claimed_first (λ c. Memᴰ c runs × P c) xs
            (All-filter_of (λ c. Memᴰ c runs) (λ c. Memᴰ c runs × P c) p
              (λ c m q. (m, (decides c).0 q)) runs (members runs)))
          e in
      (
        m,
        k,
        All-unfilter p P (IsBefore c) (λ r. (decides r).1) runs
            (All-of_sort_by claimed_first (IsBefore c) xs (
              All-imp (claimed_first-IsBefore c) _ (
                head_sorted claimed_first-IsTotal c (sort_by claimed_first xs)
                  (sort_by-IsSorted claimed_first-IsTotal xs) e))),
      )

-- `ClaimNextRun` takes a run of the table that is queued, due and that no run keeps waiting, and of all these one
-- that was enqueued first, as texts, with the least id among equals; it takes none only where there is no such run.
pub next_run-IsFirst :
    (t : Tables) (now : Text) (runs : List RunRow)
    → IsFirst (IsClaimable t now runs) runs (next_run t now runs)
unfolding next_run
next_run-IsFirst t now runs =
    head-IsFirst (eligible t now runs) (IsClaimable t now runs) (eligible_iff t now runs)
      (next_run t now runs) runs refl

-- The instants that `db.Now` writes end in `Z`, and the zeros at the end of a fraction are left out. As texts,
-- an instant whose digits are the first of a later one's comes after it.
unit_le-trimmed_fraction :
    (instant : Text) (digit : ℕ) (more : Text)
    → digit ≤ 0x39
    → unit_le (instant ++ 0x5a ∷ []) (instant ++ digit ∷ more) ≡ false
unfolding unit_le
unit_le-trimmed_fraction [] digit more h = ground (arith, h)
unit_le-trimmed_fraction (c ∷ s) digit more h =
    ground (arith, unit_le-trimmed_fraction s digit more h)

-- Of two runs, the instant of the first was written without the zeros at the end of its fraction, and the second
-- was enqueued at an instant with the same digits and more: the first is not claimed first.
pub claimed_first-trimmed :
    (a b : RunRow) (instant : Text) (digit : ℕ) (more : Text)
    → a.enqueued_at ≡ instant ++ 0x5a ∷ []
    → b.enqueued_at ≡ instant ++ digit ∷ more
    → digit ≤ 0x39
    → claimed_first a b ≡ false
claimed_first-trimmed a b instant digit more h k d =
    let later = unit_le-trimmed_fraction instant digit more d in
    let after : unit_le a.enqueued_at b.enqueued_at ≡ false = rw (h, k) later in
    elim (Bool-cases (text_eq a.enqueued_at b.enqueued_at)) [
      | inl e ↦
          let same : a.enqueued_at ≡ b.enqueued_at =
            (text_eq_iff a.enqueued_at b.enqueued_at).0 e in
          absurd (ground (arith, after, same, unit_le_total b.enqueued_at b.enqueued_at))
      | inr e ↦ rw (e, after) refl
    ]
