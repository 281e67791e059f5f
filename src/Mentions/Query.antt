-- ===== src/Mentions/Query.antt =====
-- Which mentions are found: the regular expression, as the scan reads it.
use cron_agent_dashboard.Mentions.{
  query_at, query_of, MentionQuery, at_sign, is_term_char, match_term, scan_term, exec_mention,
  get_mention_query,
}
use cron_agent_dashboard.Prelude.{
  ℕ, ◌-◌, ◌≡◌, refl, sym, ap, ◌∙◌, ◌↔◌, ◌⊎◌, inl, inr, Bool, true, false, Option, none, some, [],
  ◌∷◌, ◌++◌, Text, is_space, length, length-append, take, all, Bool-cases, arith,
}

unfoldable pub ends_in_space : Text → Bool
ends_in_space [] = false
ends_in_space (c ∷ []) = is_space c
ends_in_space (c ∷ d ∷ s) = ends_in_space (d ∷ s)

-- A mention may begin here: at the start, or behind a space
abbrev pub AtBoundary : Text → Type 0
AtBoundary pre = (pre ≡ []) ⊎ (ends_in_space pre ≡ true)

abbrev pub IsTerm : Text → Type 0
IsTerm term = all is_term_char term ≡ true

pub match_term-some :
    (s : Text) {term : Text} → match_term s ≡ some term → (s ≡ at_sign ∷ term) × IsTerm term
unfolding match_term
match_term-some [] h = cc
match_term-some (c ∷ s) h = ground arith

match_term_of_IsTerm : (term : Text) → IsTerm term → match_term (at_sign ∷ term) ≡ some term
unfolding match_term
match_term_of_IsTerm term h = rw h

all-at : (s term : Text) → all is_term_char (s ++ at_sign ∷ term) ≡ false
all-at [] term = refl
all-at (c ∷ s) term = ground (arith, all-at s term)

-- An earlier `@` does not match: what follows it holds another.
match_term-earlier : (c : ℕ) (s term : Text) → match_term (c ∷ (s ++ at_sign ∷ term)) ≡ none
unfolding match_term
match_term-earlier c s term = ground (arith, all-at s term)

-- A mention behind a space in `s`
abbrev Behind : Text → Text → Type 0
Behind s term =
    (pre : Text) × (s ≡ pre ++ at_sign ∷ term) × (ends_in_space pre ≡ true) × IsTerm term

scan_term-cons :
    (c : ℕ) (s : Text) {term : Text}
    → scan_term (c ∷ s) ≡ some term
    → ((is_space c ≡ true) × (match_term s ≡ some term)) ⊎ (scan_term s ≡ some term)
unfolding scan_term
scan_term-cons c s h = ground arith

ends_in_space-cons : (c : ℕ) (s : Text) → ends_in_space s ≡ true → ends_in_space (c ∷ s) ≡ true
unfolding ends_in_space
ends_in_space-cons c [] h = cc
ends_in_space-cons c (d ∷ s) h = h

scan_term_sound : (s : Text) {term : Text} → scan_term s ≡ some term → Behind s term
scan_term_sound [] h = unfold scan_term in cc
scan_term_sound (c ∷ s) h = elim (scan_term-cons c s h) [
  | inl (space, m) ↦
      let (e, t) = match_term-some s m in (c ∷ [], ap (c ∷◌) e, unfold ends_in_space in space, t)
  | inr later ↦
      let (pre, e, b, t) = scan_term_sound s later in
      (c ∷ pre, ap (c ∷◌) e, ends_in_space-cons c pre b, t)
]

exec_mention-cases :
    (s : Text) {term : Text}
    → exec_mention s ≡ some term
    → (match_term s ≡ some term) ⊎ (scan_term s ≡ some term)
unfolding exec_mention
exec_mention-cases s h = ground arith

pub exec_mention_sound :
    (s : Text) {term : Text}
    → exec_mention s ≡ some term
    → (pre : Text) × (s ≡ pre ++ at_sign ∷ term) × AtBoundary pre × IsTerm term
exec_mention_sound s h = elim (exec_mention-cases s h) [
  | inl m ↦ let (e, t) = match_term-some s m in ([], e, inl refl, t)
  | inr m ↦ let (pre, e, b, t) = scan_term_sound s m in (pre, e, inr b, t)
]

scan_term_complete :
    (pre term : Text)
    → ends_in_space pre ≡ true
    → IsTerm term
    → scan_term (pre ++ at_sign ∷ term) ≡ some term
unfolding scan_term ends_in_space
scan_term_complete [] term b t = cc
scan_term_complete (c ∷ []) term b t = rw (b, match_term_of_IsTerm term t)
scan_term_complete (c ∷ d ∷ s) term b t =
    let ih = scan_term_complete (d ∷ s) term b t in
    let miss = match_term-earlier d s term in
    elim (Bool-cases (is_space c)) [
      | inl e ↦ rw (e, miss, scan_term) ih
      | inr e ↦ rw (e, scan_term) ih
    ]

exec_mention_complete :
    (pre term : Text)
    → AtBoundary pre
    → IsTerm term
    → exec_mention (pre ++ at_sign ∷ term) ≡ some term
unfolding exec_mention
exec_mention_complete [] term b t = rw (match_term_of_IsTerm term t, exec_mention)
exec_mention_complete (c ∷ s) term (inl e) t = cc
exec_mention_complete (c ∷ s) term (inr b) t =
    rw (match_term-earlier c s term, exec_mention) (scan_term_complete (c ∷ s) term b t)

query_of-some :
    (cursor : ℕ) (before : Text) (o : Option Text) (q : MentionQuery)
    → query_of cursor before o ≡ some q
    → (term : Text) × (o ≡ some term) × (q ≡ query_at cursor before term)
query_of-some cursor before none q h = cc
query_of-some cursor before (some term) q h = (term, refl, ground arith)

pub get_mention_query_lem :
    (value : Text) (cursor : ℕ)
    → get_mention_query value cursor
      ≡ query_of cursor (take cursor value) (exec_mention (take cursor value))
unfolding get_mention_query
get_mention_query_lem value cursor = refl

start_of : (pre term : Text) → length (pre ++ at_sign ∷ term) - length term - 1 ≡ length pre
start_of pre term = omega (arith, length-append pre (at_sign ∷ term))

-- A query is found exactly if the text before the cursor ends in `@` and a term without `@` or
-- space, and the `@` stands at the start or behind a space; it starts at that `@`, ends at the
-- cursor, and has that term.
pub get_mention_query_iff :
    (value : Text) (cursor : ℕ) (q : MentionQuery)
    → (get_mention_query value cursor ≡ some q) ↔ (
        (pre : Text) × (take cursor value ≡ pre ++ at_sign ∷ q.term)
        × AtBoundary pre
        × IsTerm q.term
        × (q.start ≡ length pre)
        × (q.end ≡ cursor))
get_mention_query_iff value cursor q = (to, from)
  where
    to :
        get_mention_query value cursor ≡ some q
        → (pre : Text) × (take cursor value ≡ pre ++ at_sign ∷ q.term)
          × AtBoundary pre
          × IsTerm q.term
          × (q.start ≡ length pre)
          × (q.end ≡ cursor)
    to h =
        let (term, e, same) =
          query_of-some cursor (take cursor value) (exec_mention (take cursor value)) q
            (sym (get_mention_query_lem value cursor) ∙ h) in
        let (pre, text, b, t) = exec_mention_sound (take cursor value) e in
        rw same (pre, text, b, t, rw text (start_of pre term), refl)

    from :
        (pre : Text) × (take cursor value ≡ pre ++ at_sign ∷ q.term)
          × AtBoundary pre
          × IsTerm q.term
          × (q.start ≡ length pre)
          × (q.end ≡ cursor)
        → get_mention_query value cursor ≡ some q
    from (pre, text, b, t, s, e) =
        get_mention_query_lem value cursor
        ∙ rw (text, exec_mention_complete pre q.term b t) (ap some (same pre s e))
      where
        same :
            (pre : Text)
            → q.start ≡ length pre
            → q.end ≡ cursor
            → query_at cursor (pre ++ at_sign ∷ q.term) q.term ≡ q
        same pre s e = ground (arith, start_of pre q.term)
