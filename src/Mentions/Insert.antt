-- ===== src/Mentions/Insert.antt =====
-- What choosing an agent does to the text and the cursor.
use mathlib.Core.List.{append_assoc}
use cron_agent_dashboard.Prelude.{
  ℕ, ◌+◌, ◌≤◌, ◌≡◌, refl, sym, ap, ◌∙◌, ◌&&◌, Bool, true, false, none, some, List, [], ◌∷◌, ◌++◌,
  Text, is_space, length, length-append, length-take, take, drop, Option-cases, inl, inr, all,
  arith,
}
use cron_agent_dashboard.Mentions.{
  MentionQuery, at_sign, is_term_char, query_of, exec_mention, get_mention_query, insert_agent,
}
use cron_agent_dashboard.Mentions.Query.{
  ends_in_space, IsTerm, exec_mention_sound, get_mention_query_lem, get_mention_query_iff,
}

take-length-append {ℓ} : {A : Type ℓ} (xs ys : List A) → take (length xs) (xs ++ ys) ≡ xs
take-length-append [] ys = refl
take-length-append (x ∷ xs) ys = ap (x ∷◌) (take-length-append xs ys)

drop-length-append {ℓ} : {A : Type ℓ} (xs ys : List A) → drop (length xs) (xs ++ ys) ≡ ys
drop-length-append [] ys = refl
drop-length-append (x ∷ xs) ys = drop-length-append xs ys

ends_in_space-blank : (s : Text) → ends_in_space (s ++ 32 ∷ []) ≡ true
unfolding ends_in_space is_space
ends_in_space-blank [] = refl
ends_in_space-blank (c ∷ []) = refl
ends_in_space-blank (c ∷ d ∷ s) = ends_in_space-blank (d ∷ s)

-- A text that ends in a term does not end in a space.
term_end :
    (c : ℕ) (term : Text) → is_space c ≡ false → IsTerm term → ends_in_space (c ∷ term) ≡ false
unfolding ends_in_space
term_end c [] h t = h
term_end c (d ∷ term) h t =
    term_end d term (not_space d (all is_term_char term) t) (rest d (all is_term_char term) t)
  where
    not_space : (d : ℕ) (b : Bool) → (is_term_char d && b) ≡ true → is_space d ≡ false
    not_space d b e = ground arith

    rest : (d : ℕ) (b : Bool) → (is_term_char d && b) ≡ true → b ≡ true
    rest d b e = ground arith

ends_in_space-append :
    (pre : Text) (c : ℕ) (s : Text) → ends_in_space (pre ++ c ∷ s) ≡ ends_in_space (c ∷ s)
unfolding ends_in_space
ends_in_space-append [] c s = refl
ends_in_space-append (d ∷ []) c s = refl
ends_in_space-append (d ∷ e ∷ pre) c s = ends_in_space-append (e ∷ pre) c s

at_is_no_space : is_space at_sign ≡ false
unfolding is_space
at_is_no_space = refl

-- Behind a space no mention is being typed.
exec_mention-blank : (s : Text) → exec_mention (s ++ 32 ∷ []) ≡ none
exec_mention-blank s = elim (Option-cases (exec_mention (s ++ 32 ∷ []))) [
  | inl e ↦ e
  | inr (term, e) ↦
      let (pre, text, _, t) = exec_mention_sound (s ++ 32 ∷ []) e in
      let no_space : ends_in_space (s ++ 32 ∷ []) ≡ false =
        ap ends_in_space text
        ∙ ends_in_space-append pre at_sign term
        ∙ term_end at_sign term at_is_no_space t in
      cc (no_space, ends_in_space-blank s)
]

-- Choosing an agent while a mention is being typed, the cursor within the text: before the new
-- cursor stand what was before the mention, and `@`, the name and a space; behind it stands what was
-- behind the old cursor; and no mention is being typed there any more.
pub insert_agent_lem :
    (value : Text) (cursor : ℕ) (q : MentionQuery) (name : Text)
    → cursor ≤ length value
    → get_mention_query value cursor ≡ some q
    → let (next, after) = insert_agent value q name in
      (take after next ≡ take q.start value ++ at_sign ∷ (name ++ 32 ∷ []))
      × (drop after next ≡ drop cursor value)
      × (get_mention_query next after ≡ none)
unfolding insert_agent
insert_agent_lem value cursor q name fits typed =
    let (pre, text, _, _, start, end) = (get_mention_query_iff value cursor q).0 typed in
    let first = take q.start value in
    let front = first ++ at_sign ∷ (name ++ 32 ∷ []) in
    let back = drop q.end value in
    let whole : first ++ at_sign ∷ (name ++ 32 ∷ back) ≡ front ++ back = sym (
      append_assoc first (at_sign ∷ (name ++ 32 ∷ [])) back
      ∙ ap (λ x. first ++ at_sign ∷ x) (append_assoc name (32 ∷ []) back)) in
    let size : q.start + length name + 2 ≡ length front = omega (
      arith,
      length-append first (at_sign ∷ (name ++ 32 ∷ [])),
      length-append name (32 ∷ []),
      length-take q.start value,
      length-take cursor value,
      ap length text,
      length-append pre (at_sign ∷ q.term),
      start,
      fits,
    ) in
    rw (whole, size)
      (
        take-length-append front back,
        drop-length-append front back ∙ ap (λ n. drop n value) end,
        get_mention_query_lem (front ++ back) (length front)
            ∙ ap (λ b. query_of (length front) b (exec_mention b)) (take-length-append front back)
            ∙ ap (query_of (length front) front) (
                ap exec_mention (sym (append_assoc first (at_sign ∷ name) (32 ∷ [])))
                ∙ exec_mention-blank (first ++ at_sign ∷ name)),
      )
