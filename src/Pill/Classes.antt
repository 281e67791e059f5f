-- ===== src/Pill/Classes.antt =====
-- Whatever a status is, the segment made of it is fit for a class name.
use cron_agent_dashboard.Prelude.{
  ℕ, ◌≡◌, ◌≢◌, refl, Bool, true, false, ◌&&◌, [], ◌∷◌, map, Text, All, arith, ◌==◌,
}
use cron_agent_dashboard.Pill.{
  dash, starts_in, replace_runs, is_safe, safe_unit, drop_first, drop_last, collapsed, or_unknown,
  safe_class_segment,
}

abbrev pub IsSafe : Text → Type 0
IsSafe = All (λ c. is_safe c ≡ true)

-- No two dashes stand side by side.
abbrev pub HasNoDouble : Text → Type 0
HasNoDouble [] = Unit
HasNoDouble (c ∷ s) = ((c == dash) && starts_in (λ d. d == dash) s) ≡ false × HasNoDouble s

abbrev pub is_dash : ℕ → Bool
is_dash c = c == dash

map-IsSafe : (s : Text) → IsSafe (map safe_unit s)
map-IsSafe [] = tt
map-IsSafe (c ∷ s) = (ground arith, map-IsSafe s)

replace_runs-IsSafe : (s : Text) → IsSafe s → IsSafe (replace_runs is_dash dash s)
unfolding replace_runs
replace_runs-IsSafe [] h = tt
replace_runs-IsSafe (c ∷ s) h = ground (arith, replace_runs-IsSafe s h.1, h.0)

-- The collapsed text starts with a dash exactly if the text does.
starts_in-replace_runs :
    (s : Text) → starts_in is_dash (replace_runs is_dash dash s) ≡ starts_in is_dash s
unfolding replace_runs
starts_in-replace_runs [] = refl
starts_in-replace_runs (c ∷ s) = ground (arith, starts_in-replace_runs s)

replace_runs-HasNoDouble : (s : Text) → HasNoDouble (replace_runs is_dash dash s)
unfolding replace_runs
replace_runs-HasNoDouble [] = tt
replace_runs-HasNoDouble (c ∷ s) =
    ground (arith, replace_runs-HasNoDouble s, starts_in-replace_runs s)

drop_first-IsSafe : (s : Text) → IsSafe s → IsSafe (drop_first s)
drop_first-IsSafe [] h = tt
drop_first-IsSafe (c ∷ s) h = ground (arith, h.0, h.1)

drop_first-HasNoDouble : (s : Text) → HasNoDouble s → HasNoDouble (drop_first s)
drop_first-HasNoDouble [] h = tt
drop_first-HasNoDouble (c ∷ s) h = ground (arith, h.0, h.1)

starts_in-drop_first : (s : Text) → HasNoDouble s → starts_in is_dash (drop_first s) ≡ false
starts_in-drop_first [] h = refl
starts_in-drop_first (c ∷ s) h = ground (arith, h.0)

drop_last-IsSafe : (s : Text) → IsSafe s → IsSafe (drop_last s)
unfolding drop_last
drop_last-IsSafe [] h = tt
drop_last-IsSafe (c ∷ []) h = ground (arith, h.0)
drop_last-IsSafe (c ∷ d ∷ s) h = (h.0, drop_last-IsSafe (d ∷ s) h.1)

starts_in-drop_last :
    (s : Text) → starts_in is_dash s ≡ false → starts_in is_dash (drop_last s) ≡ false
unfolding drop_last
starts_in-drop_last [] h = refl
starts_in-drop_last (c ∷ []) h = ground (arith, h)
starts_in-drop_last (c ∷ d ∷ s) h = h

or_unknown_lem :
    (s : Text)
    → IsSafe s
    → starts_in is_dash s ≡ false
    → (or_unknown s ≢ []) × IsSafe (or_unknown s) × (starts_in is_dash (or_unknown s) ≡ false)
or_unknown_lem [] h k = (λ e. cc, ground arith, refl)
or_unknown_lem (c ∷ s) h k = (λ e. cc, h, k)

-- The segment is not empty, holds only small letters, digits and dashes, and does not start with a
-- dash.
pub safe_class_segment-IsSafe :
    (value : Text)
    → let segment = safe_class_segment value in
      (segment ≢ []) × IsSafe segment × (starts_in is_dash segment ≡ false)
unfolding safe_class_segment collapsed
safe_class_segment-IsSafe value =
    let joined = replace_runs is_dash dash (map safe_unit value) in
    let inner = drop_first joined in
    let single = replace_runs-HasNoDouble (map safe_unit value) in
    or_unknown_lem (drop_last inner)
      (drop_last-IsSafe inner
        (drop_first-IsSafe joined (replace_runs-IsSafe (map safe_unit value) (map-IsSafe value))))
      (starts_in-drop_last inner (starts_in-drop_first joined single))
