-- ===== src/Api/Stream/Lines.antt =====
-- Line ends: what the two replacements do, and splitting into lines and joining them.
use cron_agent_dashboard.Prelude.{
  ◌≡◌, refl, ap, ◌≢◌, Bool, false, ◌&&◌, List, [], ◌∷◌, ◌++◌, map, Text, All, ◌==◌, Bool-cases, inl,
  inr, arith,
}
use cron_agent_dashboard.Api.Stream.{
  lf, cr, begins_lf, join_crlf, cr_to_lf, normalize, split_lines, join_lines, drop_cr,
}

abbrev pub HasNoCr : Text → Type 0
HasNoCr = All (λ c. c ≢ cr)

-- the content of a line
abbrev pub IsLine : Text → Type 0
IsLine = All (λ c. (c ≢ lf) × (c ≢ cr))

unfoldable pub ends_cr : Text → Bool
ends_cr [] = false
ends_cr (c ∷ []) = c == cr
ends_cr (c ∷ d ∷ s) = ends_cr (d ∷ s)

pub IsLine-HasNoCr : (s : Text) → IsLine s → HasNoCr s
IsLine-HasNoCr [] h = tt
IsLine-HasNoCr (c ∷ s) h = (h.0.1, IsLine-HasNoCr s h.1)

pub ends_cr_of_HasNoCr : (s : Text) → HasNoCr s → ends_cr s ≡ false
unfolding ends_cr
ends_cr_of_HasNoCr [] h = refl
ends_cr_of_HasNoCr (c ∷ []) h = ground (arith, h.0)
ends_cr_of_HasNoCr (c ∷ d ∷ s) h = ends_cr_of_HasNoCr (d ∷ s) h.1

pub ends_cr-append : (a b : Text) → ends_cr a ≡ false → ends_cr b ≡ false → ends_cr (a ++ b) ≡ false
unfolding ends_cr
ends_cr-append [] b h k = k
ends_cr-append (c ∷ []) [] h k = h
ends_cr-append (c ∷ []) (d ∷ b) h k = k
ends_cr-append (c ∷ d ∷ a) b h k = ends_cr-append (d ∷ a) b h k

map-HasNoCr : (s : Text) → HasNoCr (map cr_to_lf s)
map-HasNoCr [] = tt
map-HasNoCr (c ∷ s) = (ground arith, map-HasNoCr s)

-- No CR is left.
pub normalize-HasNoCr : (s : Text) → HasNoCr (normalize s)
unfolding normalize
normalize-HasNoCr s = map-HasNoCr (join_crlf s)

join_crlf_of_HasNoCr : (s : Text) → HasNoCr s → join_crlf s ≡ s
unfolding join_crlf
join_crlf_of_HasNoCr [] h = refl
join_crlf_of_HasNoCr (c ∷ s) h = ground (arith, h.0, join_crlf_of_HasNoCr s h.1)

map_of_HasNoCr : (s : Text) → HasNoCr s → map cr_to_lf s ≡ s
map_of_HasNoCr [] h = refl
map_of_HasNoCr (c ∷ s) h = ground (arith, h.0, map_of_HasNoCr s h.1)

pub normalize_of_HasNoCr : (s : Text) → HasNoCr s → normalize s ≡ s
unfolding normalize
normalize_of_HasNoCr s h = rw (join_crlf_of_HasNoCr s h) (map_of_HasNoCr s h)

join_crlf-append :
    (a b : Text) → ends_cr a ≡ false → join_crlf (a ++ b) ≡ join_crlf a ++ join_crlf b
unfolding join_crlf ends_cr
join_crlf-append [] b h = refl
join_crlf-append (c ∷ []) b h = rw h
join_crlf-append (c ∷ d ∷ a) b h = elim (Bool-cases ((c == cr) && begins_lf (d ∷ a))) [
  | inl e ↦ rw e (join_crlf-append (d ∷ a) b h)
  | inr e ↦ rw e (ap (c ∷◌) (join_crlf-append (d ∷ a) b h))
]

map-append_lem : (a b : Text) → map cr_to_lf (a ++ b) ≡ map cr_to_lf a ++ map cr_to_lf b
map-append_lem [] b = refl
map-append_lem (c ∷ a) b = ap (cr_to_lf c ∷◌) (map-append_lem a b)

-- Two parts of a text may be normalised one by one, unless the cut falls between CR and LF.
pub normalize-append :
    (a b : Text) → ends_cr a ≡ false → normalize (a ++ b) ≡ normalize a ++ normalize b
unfolding normalize
normalize-append a b h = rw (join_crlf-append a b h) (map-append_lem (join_crlf a) (join_crlf b))

split_lines_of_IsLine : (l : Text) → IsLine l → split_lines l ≡ l ∷ []
unfolding split_lines
split_lines_of_IsLine [] h = refl
split_lines_of_IsLine (c ∷ l) h = ground (arith, h.0.0, split_lines_of_IsLine l h.1)

split_lines-lf : (l s : Text) → IsLine l → split_lines (l ++ lf ∷ s) ≡ l ∷ split_lines s
unfolding split_lines
split_lines-lf [] s h = refl
split_lines-lf (c ∷ l) s h = ground (arith, h.0.0, split_lines-lf l s h.1)

-- Splitting undoes joining.
pub split_lines-join_lines :
    (l : Text) (ls : List Text)
    → IsLine l
    → All IsLine ls
    → split_lines (join_lines (l ∷ ls)) ≡ l ∷ ls
unfolding join_lines
split_lines-join_lines l [] h k = split_lines_of_IsLine l h
split_lines-join_lines l (m ∷ ms) h k =
    rw (split_lines-lf l (join_lines (m ∷ ms)) h) (ap (l ∷◌) (split_lines-join_lines m ms k.0 k.1))

pub drop_cr_of_IsLine : (l : Text) → IsLine l → drop_cr l ≡ l
unfolding drop_cr
drop_cr_of_IsLine [] h = refl
drop_cr_of_IsLine (c ∷ []) h = ground (arith, h.0.1)
drop_cr_of_IsLine (c ∷ d ∷ l) h = ap (c ∷◌) (drop_cr_of_IsLine (d ∷ l) h.1)
