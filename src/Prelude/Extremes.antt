-- ===== src/Prelude/Extremes.antt =====
-- The first and the last entry of a list, of one that is sorted, and of the entries that satisfy a test.
use mathlib.Core.Path.{◌≡◌, refl, subst}
use mathlib.Core.Logic.{◌⊎◌, inl, inr}
use mathlib.Core.Bool.{Bool, true}
use mathlib.Core.Option.{some}
use mathlib.Core.List.{List, [], ◌∷◌, Memᴰ}
use native.Mathlib.Omega.{arith}
use package.cron_agent_dashboard.Prelude.Tests.{if◌then◌else◌, Bool-cases}
use package.cron_agent_dashboard.Prelude.Lists.{All, All-imp, head?, get_last?, filter}
use package.cron_agent_dashboard.Prelude.Sort.{insert_by, sort_by, IsSorted, IsTotal}

module _ {ℓ} {A : Type ℓ} where
  -- Each entry is one of the list.
  pub members : (xs : List A) → All (λ c. Memᴰ c xs) xs
  members [] = tt
  members (x ∷ xs) = (Memᴰ.head refl, All-imp (λ c m. Memᴰ.tail m) xs (members xs))

  pub All-both {κ μ} :
      (P : A → Type κ) (Q : A → Type μ) (xs : List A)
      → All P xs
      → All Q xs
      → All (λ x. P x × Q x) xs
  All-both P Q [] h k = tt
  All-both P Q (x ∷ xs) h k = ((h.0, k.0), All-both P Q xs h.1 k.1)

  pub head_of {κ} : (P : A → Type κ) (xs : List A) (c : A) → All P xs → head? xs ≡ some c → P c
  head_of P [] c a e = cc
  head_of P (x ∷ xs) c a e = let same : x ≡ c = ground arith in subst P same a.0

  pub last_of {κ} : (P : A → Type κ) (xs : List A) (c : A) → All P xs → get_last? xs ≡ some c → P c
  last_of P [] c a e = cc
  last_of P (x ∷ []) c a e = let same : x ≡ c = ground arith in subst P same a.0
  last_of P (x ∷ y ∷ xs) c a e = last_of P (y ∷ xs) c a.1 e

  -- What holds of the entries that pass a test holds of each entry, or it is none that the test decides.
  pub All-unfilter {κ μ} :
      (p : A → Bool) (P : A → Type κ) (Q : A → Type μ)
      → ((x : A) → P x → p x ≡ true)
      → (xs : List A) → All Q (filter p xs)
      → All (λ x. (¬ P x) ⊎ Q x) xs
  All-unfilter p P Q f [] h = tt
  All-unfilter p P Q f (x ∷ xs) h = elim (Bool-cases (p x)) [
    | inl e ↦
        let k : All Q (x ∷ filter p xs) =
          subst (λ b. All Q (if b then x ∷ filter p xs else filter p xs)) e h in
        (inr k.0, All-unfilter p P Q f xs k.1)
    | inr e ↦
        let k : All Q (filter p xs) =
          subst (λ b. All Q (if b then x ∷ filter p xs else filter p xs)) e h in
        (inl (λ q. ground (arith, e, f x q)), All-unfilter p P Q f xs k)
  ]

  module _ (le : A → A → Bool) where
    All-of_insert_by {κ} :
        (P : A → Type κ) (x : A) (ys : List A) → All P (insert_by le x ys) → P x × All P ys
    unfolding insert_by
    All-of_insert_by P x [] h = h
    All-of_insert_by P x (y ∷ ys) h = elim (Bool-cases (le x y)) [
      | inl e ↦
          let k : All P (x ∷ y ∷ ys) =
            subst (λ b. All P (if b then x ∷ y ∷ ys else y ∷ insert_by le x ys)) e h in
          k
      | inr e ↦
          let k : All P (y ∷ insert_by le x ys) =
            subst (λ b. All P (if b then x ∷ y ∷ ys else y ∷ insert_by le x ys)) e h in
          let (px, pys) = All-of_insert_by P x ys k.1 in (px, (k.0, pys))
    ]

    pub All-of_sort_by {κ} : (P : A → Type κ) (xs : List A) → All P (sort_by le xs) → All P xs
    unfolding sort_by
    All-of_sort_by P [] h = tt
    All-of_sort_by P (x ∷ xs) h =
        let (px, rest) = All-of_insert_by P x (sort_by le xs) h in (px, All-of_sort_by P xs rest)

  module _ {le : A → A → Bool} (t : IsTotal le) where
    le_refl : (x : A) → le x x ≡ true
    le_refl x = elim (t.total x x) [ inl f ↦ f | inr f ↦ f ]

    pub head_sorted :
        (c : A) (xs : List A) → IsSorted le xs → head? xs ≡ some c → All (λ r. le c r ≡ true) xs
    head_sorted c [] h e = tt
    head_sorted c (x ∷ xs) h e =
        let same : x ≡ c = ground arith in
        subst (λ y. All (λ r. le y r ≡ true) (x ∷ xs)) same (le_refl x, h.0)

    pub last_sorted :
        (c : A) (xs : List A) → IsSorted le xs → get_last? xs ≡ some c → All (λ r. le r c ≡ true) xs
    last_sorted c [] h e = tt
    last_sorted c (x ∷ []) h e =
        let same : x ≡ c = ground arith in (subst (λ y. le x y ≡ true) same (le_refl x), tt)
    last_sorted c (x ∷ y ∷ ys) h e =
        (last_of (λ r. le x r ≡ true) (y ∷ ys) c h.0 e, last_sorted c (y ∷ ys) h.1 e)
