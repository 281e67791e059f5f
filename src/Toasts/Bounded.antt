-- ===== src/Toasts/Bounded.antt =====
-- The list stays short and its ids distinct; a shown toast is in front, a dismissed one is gone.
use cron_agent_dashboard.Prelude.{
  text_eq_refl, ℕ, zero, suc, ◌≤◌, ◌≡◌, refl, ◌≢◌, Bool, not, List, [], ◌∷◌, Text, text_eq,
  text_eq_iff, filter, take, length, length-take, length-filter-le, All, All-filter, All-take,
  All-filter_of, Bool-cases, inl, inr, arith,
}
use cron_agent_dashboard.Toasts.{
  Toast, ToastInput, toast_of, dismiss_toast, show_toast, Change, show, dismiss, change, changes,
}

abbrev pub Lacks : Text → List Toast → Type 0
Lacks id = All (λ t. t.id ≢ id)

abbrev pub HasDistinctIds : List Toast → Type 0
HasDistinctIds [] = Unit
HasDistinctIds (t ∷ ts) = Lacks t.id ts × HasDistinctIds ts

pub record IsValid (toasts : List Toast) : Type 0 where
  pub bounded : length toasts ≤ 5
  pub distinct : HasDistinctIds toasts

HasDistinctIds-filter :
    (p : Toast → Bool) (ts : List Toast) → HasDistinctIds ts → HasDistinctIds (filter p ts)
HasDistinctIds-filter p [] h = tt
HasDistinctIds-filter p (t ∷ ts) h = elim (Bool-cases (p t)) [
  | inl e ↦ rw e (All-filter (λ x. x.id ≢ t.id) p ts h.0, HasDistinctIds-filter p ts h.1)
  | inr e ↦ rw e (HasDistinctIds-filter p ts h.1)
]

HasDistinctIds-take : (n : ℕ) (ts : List Toast) → HasDistinctIds ts → HasDistinctIds (take n ts)
HasDistinctIds-take zero ts h = tt
HasDistinctIds-take (suc n) [] h = tt
HasDistinctIds-take (suc n) (t ∷ ts) h =
    (All-take (λ x. x.id ≢ t.id) n ts h.0, HasDistinctIds-take n ts h.1)

All-any : (ts : List Toast) → All (λ _. Unit {0}) ts
All-any [] = tt
All-any (t ∷ ts) = (tt, All-any ts)

-- No toast with the id is left.
dismiss_toast-Lacks : (id : Text) (ts : List Toast) → Lacks id (dismiss_toast id ts)
unfolding dismiss_toast
dismiss_toast-Lacks id ts =
    All-filter_of (λ _. Unit {0}) (λ t. t.id ≢ id) (λ t. not (text_eq t.id id))
      (λ t _ e same. cc (e, (text_eq_iff t.id id).1 same)) ts (All-any ts)

dismiss_toast-IsValid : (id : Text) (ts : List Toast) → IsValid ts → IsValid (dismiss_toast id ts)
unfolding dismiss_toast
dismiss_toast-IsValid id ts v = record {
  bounded = omega (arith, v.bounded, length-filter-le (λ t. not (text_eq t.id id)) ts);
  distinct = HasDistinctIds-filter _ ts v.distinct;
}

show_toast-IsValid :
    (input : ToastInput) (fresh : Text) (ts : List Toast)
    → IsValid ts
    → IsValid (show_toast input fresh ts)
unfolding show_toast
show_toast-IsValid input fresh ts v =
    let toast = toast_of input fresh in
    let rest = dismiss_toast toast.id ts in
    record {
      bounded = omega (arith, length-take 5 (toast ∷ rest));
      distinct =
          HasDistinctIds-take 5 (toast ∷ rest)
            (dismiss_toast-Lacks toast.id ts, (dismiss_toast-IsValid toast.id ts v).distinct);
    }

change-IsValid : (ts : List Toast) (c : Change) → IsValid ts → IsValid (change ts c)
unfolding change
change-IsValid ts (show input fresh) v = show_toast-IsValid input fresh ts v
change-IsValid ts (dismiss id) v = dismiss_toast-IsValid id ts v

changes_from : (cs : List Change) (ts : List Toast) → IsValid ts → IsValid (changes ts cs)
unfolding changes
changes_from [] ts v = v
changes_from (c ∷ cs) ts v = changes_from cs (change ts c) (change-IsValid ts c v)

-- Whatever is shown and dismissed, in any order and with any ids: at most five toasts stand in the
-- list, and no two have the same id.
pub changes-IsValid : (cs : List Change) → IsValid (changes [] cs)
changes-IsValid cs = changes_from cs [] (record { bounded = omega arith; distinct = tt })

filter_of_Lacks :
    (id : Text) (ts : List Toast) → Lacks id ts → filter (λ t. not (text_eq t.id id)) ts ≡ ts
filter_of_Lacks id [] h = refl
filter_of_Lacks id (t ∷ ts) h = ground (arith, text_eq_iff t.id id, h.0, filter_of_Lacks id ts h.1)

-- A toast that is shown and dismissed again leaves the list as if its id had only been dismissed,
-- less what was cut off behind the fourth entry.
pub dismiss_toast-show_toast :
    (input : ToastInput) (fresh : Text) (ts : List Toast)
    → let id = (toast_of input fresh).id in
      dismiss_toast id (show_toast input fresh ts) ≡ take 4 (dismiss_toast id ts)
unfolding show_toast dismiss_toast
dismiss_toast-show_toast input fresh ts =
    let id = (toast_of input fresh).id in
    let rest = dismiss_toast id ts in
    rw (text_eq_refl id) (
      filter_of_Lacks id (take 4 rest)
        (All-take (λ t. t.id ≢ id) 4 rest (dismiss_toast-Lacks id ts)))
