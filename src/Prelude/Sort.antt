-- ===== src/Prelude/Sort.antt =====
-- `Array.prototype.sort` with a comparator: the sort is stable, so for a consistent comparator its
-- result is the one list that insertion sort gives. `le x y` stands for `compare(x, y) <= 0`.
-- Also the collation behind `localeCompare`, which the host provides: a parameter, with the law
-- that its language demands of it, a total order up to equivalence.
use mathlib.Core.Path.{◌≡◌, refl, ◌∙◌, ap}
use mathlib.Core.Logic.{◌⊎◌, inl, inr}
use mathlib.Core.Bool.{Bool, true, false}
use mathlib.Core.List.{List, [], ◌∷◌, Perm}
use Prim.Native.Nat.{ℕ, suc, ◌+◌, max, compare, Ordering}
use native.Mathlib.Omega.{arith}
use package.cron_agent_dashboard.Prelude.Tests.{if◌then◌else◌, Bool-cases}
use package.cron_agent_dashboard.Prelude.Lists.{All, All-imp, length, sum_by, max_by}
use package.cron_agent_dashboard.Prelude.Strings.{Text}
use mathlib.Core.List.Perm

module _ {ℓ} {A : Type ℓ} (le : A → A → Bool) where
  unfoldable pub insert_by : A → List A → List A
  insert_by x [] = x ∷ []
  insert_by x (y ∷ ys) = if le x y then x ∷ y ∷ ys else y ∷ insert_by x ys

  unfoldable pub sort_by : List A → List A
  unfolding insert_by
  sort_by [] = []
  sort_by (x ∷ xs) = insert_by x (sort_by xs)

  abbrev pub IsSorted : List A → Type 0
  IsSorted [] = Unit
  IsSorted (x ∷ xs) = All (λ y. le x y ≡ true) xs × IsSorted xs

  insert_by-perm : (x : A) (ys : List A) → Perm (insert_by x ys) (x ∷ ys)
  unfolding insert_by
  insert_by-perm x [] = Perm.refl _
  insert_by-perm x (y ∷ ys) = elim (Bool-cases (le x y)) [
    | inl e ↦ rw e (Perm.refl _)
    | inr e ↦ rw e (Perm.trans (Perm.cons y (insert_by-perm x ys)) (Perm.swap _ _ _))
  ]

  -- The sorted list holds the same entries, as often.
  pub sort_by-perm : (xs : List A) → Perm (sort_by xs) xs
  unfolding sort_by
  sort_by-perm [] = Perm.refl _
  sort_by-perm (x ∷ xs) = Perm.trans (insert_by-perm x (sort_by xs)) (Perm.cons x (sort_by-perm xs))

  pub All-insert_by {κ} :
      (P : A → Type κ) (x : A) (ys : List A) → P x → All P ys → All P (insert_by x ys)
  unfolding insert_by
  All-insert_by P x [] p h = (p, tt)
  All-insert_by P x (y ∷ ys) p h = elim (Bool-cases (le x y)) [
    | inl e ↦ rw e (p, h)
    | inr e ↦ rw e (h.0, All-insert_by P x ys p h.1)
  ]

  pub All-sort_by {κ} : (P : A → Type κ) (xs : List A) → All P xs → All P (sort_by xs)
  unfolding sort_by
  All-sort_by P [] h = tt
  All-sort_by P (x ∷ xs) h = All-insert_by P x (sort_by xs) h.0 (All-sort_by P xs h.1)

  -- A list that is in order already stays as it is.
  pub sort_by_of_IsSorted : (xs : List A) → IsSorted xs → sort_by xs ≡ xs
  unfolding sort_by insert_by
  sort_by_of_IsSorted [] h = refl
  sort_by_of_IsSorted (x ∷ []) h = refl
  sort_by_of_IsSorted (x ∷ y ∷ ys) h = rw (sort_by_of_IsSorted (y ∷ ys) h.1) (rw (h.0.0))

module _ {ℓ} {A : Type ℓ} (le : A → A → Bool) (f : A → ℕ) where
  sum_by-insert_by : (x : A) (ys : List A) → sum_by f (insert_by le x ys) ≡ f x + sum_by f ys
  unfolding insert_by
  sum_by-insert_by x [] = refl
  sum_by-insert_by x (y ∷ ys) = ground (arith, sum_by-insert_by x ys)

  pub sum_by-sort_by : (xs : List A) → sum_by f (sort_by le xs) ≡ sum_by f xs
  unfolding sort_by
  sum_by-sort_by [] = refl
  sum_by-sort_by (x ∷ xs) = omega (arith, sum_by-insert_by x (sort_by le xs), sum_by-sort_by xs)

  max_by-insert_by : (x : A) (ys : List A) → max_by f (insert_by le x ys) ≡ max (f x) (max_by f ys)
  unfolding insert_by
  max_by-insert_by x [] = refl
  max_by-insert_by x (y ∷ ys) = ground (arith, max_by-insert_by x ys)

  pub max_by-sort_by : (xs : List A) → max_by f (sort_by le xs) ≡ max_by f xs
  unfolding sort_by
  max_by-sort_by [] = refl
  max_by-sort_by (x ∷ xs) = omega (arith, max_by-insert_by x (sort_by le xs), max_by-sort_by xs)

module _ {ℓ} {A : Type ℓ} (le : A → A → Bool) where
  length-insert_by : (x : A) (ys : List A) → length (insert_by le x ys) ≡ suc (length ys)
  unfolding insert_by
  length-insert_by x [] = refl
  length-insert_by x (y ∷ ys) = ground (arith, length-insert_by x ys)

  pub length-sort_by : (xs : List A) → length (sort_by le xs) ≡ length xs
  unfolding sort_by
  length-sort_by [] = refl
  length-sort_by (x ∷ xs) = length-insert_by x (sort_by le xs) ∙ ap suc (length-sort_by xs)

-- The comparator is consistent.
pub record IsTotal {ℓ} {A : Type ℓ} (le : A → A → Bool) : Type ℓ where
  pub total : (x y : A) → (le x y ≡ true) ⊎ (le y x ≡ true)
  pub trans : (x y z : A) → le x y ≡ true → le y z ≡ true → le x z ≡ true

module _ {ℓ} {A : Type ℓ} {le : A → A → Bool} (t : IsTotal le) where
  flip_of_not : (x y : A) → le x y ≡ false → le y x ≡ true
  flip_of_not x y n = elim (t.total x y) [ inl e ↦ cc | inr e ↦ e ]

  insert_by-IsSorted : (x : A) (ys : List A) → IsSorted le ys → IsSorted le (insert_by le x ys)
  unfolding insert_by
  insert_by-IsSorted x [] h = (tt, tt)
  insert_by-IsSorted x (y ∷ ys) h = elim (Bool-cases (le x y)) [
    | inl e ↦ rw e ((e, All-imp (λ z k. t.trans x y z e k) ys h.0), h)
    | inr e ↦ rw e (
      All-insert_by le (λ z. le y z ≡ true) x ys (flip_of_not x y e) h.0,
      insert_by-IsSorted x ys h.1,
    )
  ]

  pub sort_by-IsSorted : (xs : List A) → IsSorted le (sort_by le xs)
  unfolding sort_by
  sort_by-IsSorted [] = tt
  sort_by-IsSorted (x ∷ xs) = insert_by-IsSorted x (sort_by le xs) (sort_by-IsSorted xs)

pub record Collation : Type 0 where
  pub le : Text → Text → Bool
  pub le-IsTotal : IsTotal le

-- To order by a key, and to order by it the other way round
pub IsTotal-on {ℓ κ} :
    {A : Type ℓ} {B : Type κ} (f : A → B) {le : B → B → Bool}
    → IsTotal le
    → IsTotal (λ x y. le (f x) (f y))
IsTotal-on f t = record {
  total = λ x y. t.total (f x) (f y);
  trans = λ x y z. t.trans (f x) (f y) (f z);
}

pub IsTotal-flip {ℓ} : {A : Type ℓ} {le : A → A → Bool} → IsTotal le → IsTotal (λ x y. le y x)
IsTotal-flip t = record { total = λ x y. t.total y x; trans = λ x y z p q. t.trans z y x q p }

-- A collation for tests: by code units.
unfoldable pub unit_le : Text → Text → Bool
unit_le [] t = true
unit_le (c ∷ s) [] = false
unit_le (c ∷ s) (d ∷ t) = elim (compare c d) [
  | Ordering.lt ↦ true
  | Ordering.gt ↦ false
  | Ordering.eq ↦ unit_le s t
]

pub unit_le_total : (s t : Text) → (unit_le s t ≡ true) ⊎ (unit_le t s ≡ true)
unfolding unit_le
unit_le_total [] t = inl refl
unit_le_total (c ∷ s) [] = inr refl
unit_le_total (c ∷ s) (d ∷ t) = ground (arith, unit_le_total s t)

pub unit_le_trans : (s t u : Text) → unit_le s t ≡ true → unit_le t u ≡ true → unit_le s u ≡ true
unfolding unit_le
unit_le_trans [] t u p q = refl
unit_le_trans (c ∷ s) [] u p q = cc
unit_le_trans (c ∷ s) (d ∷ t) [] p q = cc
unit_le_trans (c ∷ s) (d ∷ t) (e ∷ u) p q = ground (arith, unit_le_trans s t u)

abbrev pub by_units : Collation
by_units = record {
  le = unit_le;
  le-IsTotal = record { total = unit_le_total; trans = unit_le_trans };
}
