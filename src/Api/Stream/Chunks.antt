-- ===== src/Api/Stream/Chunks.antt =====
-- Where the chunks of a stream are cut makes no difference to the events.
use cron_agent_dashboard.Api.Stream.Lines.{
  ends_cr-append, normalize_of_HasNoCr, ends_cr_of_HasNoCr, normalize-append, normalize-HasNoCr,
  ends_cr, HasNoCr,
}
use cron_agent_dashboard.Api.Stream.{
  flush_rest, flush, read_stream, normalize, drain, lf, Event, cons_block, find_break, drain_loop,
  dispatch_block,
}
use cron_agent_dashboard.Prelude.{
  All, ap, subst, refl, ℕ, zero, suc, ◌+◌, ◌<◌, ◌≡◌, sym, ◌∙◌, Bool, true, false, ◌&&◌, Option,
  none, some, List, [], ◌∷◌, ◌++◌, Text, ◌==◌, length, Bool-cases, Option-cases, inl, inr, arith,
}
use mathlib.Core.List.{append_assoc}

-- `Drains s rest events`: taking block after block off `s` gives `events` and leaves `rest`.
pub data Drains : Text → Text → List Event → Type 0 where
  stop : {s : Text} → find_break s ≡ none → Drains s s []
  next :
      {s block r rest : Text} {events : List Event}
      → find_break s ≡ some (block, r)
      → Drains r rest events
      → Drains s rest (dispatch_block block ++ events)

abbrev pub both_lf : ℕ → ℕ → Bool
both_lf c d = (c == lf) && (d == lf)

pub find_break-here :
    (c d : ℕ) (s : Text) → both_lf c d ≡ true → find_break (c ∷ d ∷ s) ≡ some ([], s)
unfolding find_break
find_break-here c d s e = rw e

find_break-here_inv :
    (c d : ℕ) (s : Text) {block r : Text}
    → find_break (c ∷ d ∷ s) ≡ some (block, r)
    → both_lf c d ≡ true
    → (block ≡ []) × (r ≡ s)
unfolding find_break
find_break-here_inv c d s h e = ground arith

pub find_break-later :
    (c d : ℕ) (s : Text)
    → both_lf c d ≡ false
    → find_break (c ∷ d ∷ s) ≡ cons_block c (find_break (d ∷ s))
unfolding find_break
find_break-later c d s e = rw e

cons_block-eq-some :
    (c : ℕ) (o : Option (Text × Text)) {block r : Text}
    → cons_block c o ≡ some (block, r)
    → (front : Text) × (o ≡ some (front, r)) × (block ≡ c ∷ front)
cons_block-eq-some c none h = cc
cons_block-eq-some c (some (front, rest)) h = (front, ground arith, ground arith)

find_break-length :
    (s : Text) {block r : Text}
    → find_break s ≡ some (block, r)
    → length block + length r + 2 ≡ length s
find_break-length [] h = unfold find_break in cc
find_break-length (c ∷ []) h = unfold find_break in ground arith
find_break-length (c ∷ d ∷ s) {block} {r} h = elim (Bool-cases (both_lf c d)) [
  | inl e ↦
      let (none_before, same) = find_break-here_inv c d s h e in
      rw (none_before, same) (omega arith)
  | inr e ↦
      let (front, found, same) =
        cons_block-eq-some c (find_break (d ∷ s)) (sym (find_break-later c d s e) ∙ h) in
      rw same (omega (arith, find_break-length (d ∷ s) found))
]

-- The blank line is found at the same place if more text follows.
find_break-append :
    (a b : Text) {block r : Text}
    → find_break a ≡ some (block, r)
    → find_break (a ++ b) ≡ some (block, r ++ b)
find_break-append [] b h = unfold find_break in cc
find_break-append (c ∷ []) b h = unfold find_break in ground arith
find_break-append (c ∷ d ∷ a) b {block} {r} h = elim (Bool-cases (both_lf c d)) [
  | inl e ↦
      let (none_before, same) = find_break-here_inv c d a h e in
      find_break-here c d (a ++ b) e ∙ rw (none_before, same)
  | inr e ↦
      let (front, found, same) =
        cons_block-eq-some c (find_break (d ∷ a)) (sym (find_break-later c d a e) ∙ h) in
      find_break-later c d (a ++ b) e ∙ rw (find_break-append (d ∷ a) b found, same)
]

-- What is left of a text without CR has none.
find_break-HasNoCr :
    (s : Text) {block r : Text} → find_break s ≡ some (block, r) → HasNoCr s → HasNoCr r
find_break-HasNoCr [] h n = unfold find_break in cc
find_break-HasNoCr (c ∷ []) h n = unfold find_break in ground arith
find_break-HasNoCr (c ∷ d ∷ s) {block} {r} h n = elim (Bool-cases (both_lf c d)) [
  | inl e ↦ rw ((find_break-here_inv c d s h e).1) n.1.1
  | inr e ↦
      let (front, found, _) =
        cons_block-eq-some c (find_break (d ∷ s)) (sym (find_break-later c d s e) ∙ h) in
      find_break-HasNoCr (d ∷ s) found n.1
]

drain_loop-Drains :
    (fuel : ℕ) (s : Text) → length s < fuel → Drains s (drain_loop fuel s).0 (drain_loop fuel s).1
unfolding drain_loop
drain_loop-Drains zero s h = absurd (omega arith)
drain_loop-Drains (suc fuel) s h = elim (Option-cases (find_break s)) [
  | inl e ↦ rw (e, drain_loop) (Drains.stop e)
  | inr ((block, r), e) ↦
      rw (e, drain_loop)
        (Drains.next e (drain_loop-Drains fuel r (omega (arith, h, find_break-length s e))))
]

pub Drains-functional :
    {s r r' : Text} {es es' : List Event} → Drains s r es → Drains s r' es' → (r ≡ r') × (es ≡ es')
Drains-functional (Drains.stop e) (Drains.stop f) = (refl, refl)
Drains-functional (Drains.stop e) (Drains.next f d) = cc
Drains-functional (Drains.next e d) (Drains.stop f) = cc
Drains-functional (Drains.next {block} {r = t} {rest} {events} e d)
      (Drains.next {block = block'} {r = t'} {rest = rest'} {events = events'} f d') =
    let same : ◌≡◌ {A = Option (Text × Text)} (some (block, t)) (some (block', t')) = sym e ∙ f in
    let at_tail : t' ≡ t = some_tail block t block' t' same in
    let at_block : block ≡ block' = some_front block t block' t' same in
    let (p, q) = Drains-functional d (subst (λ x. Drains x rest' events') at_tail d') in
    (p, cc (ap dispatch_block at_block, q))
  where
    some_tail :
        (b t b' t' : Text) → ◌≡◌ {A = Option (Text × Text)} (some (b, t)) (some (b', t')) → t' ≡ t
    some_tail b t b' t' h = ground arith

    some_front :
        (b t b' t' : Text) → ◌≡◌ {A = Option (Text × Text)} (some (b, t)) (some (b', t')) → b ≡ b'
    some_front b t b' t' h = ground arith

Drains-append :
    {a r rest : Text} {es fs : List Event} (b : Text)
    → Drains a r es
    → Drains (r ++ b) rest fs
    → Drains (a ++ b) rest (es ++ fs)
Drains-append b (Drains.stop e) d = d
Drains-append b (Drains.next {s = a} {block} {r} {events = es} e c) d =
    rw (append_assoc (dispatch_block block) es _)
      (Drains.next (find_break-append a b e) (Drains-append b c d))

Drains-HasNoCr : {s r : Text} {es : List Event} → Drains s r es → HasNoCr s → HasNoCr r
Drains-HasNoCr (Drains.stop e) n = n
Drains-HasNoCr (Drains.next {s} e d) n = Drains-HasNoCr d (find_break-HasNoCr s e n)

pub drain-Drains : (a : Text) → Drains (normalize a) (drain a).0 (drain a).1
unfolding drain
drain-Drains a = drain_loop-Drains (suc (length (normalize a))) (normalize a) (omega arith)

pub drain-HasNoCr : (a : Text) → HasNoCr (drain a).0
drain-HasNoCr a = Drains-HasNoCr (drain-Drains a) (normalize-HasNoCr a)

-- Let `a` not end in a CR. Draining a text at once, or a first part `a` of it and then what is left
-- with the second part, gives the same rest and the same events.
pub drain-append :
    (a b : Text)
    → ends_cr a ≡ false
    → let first = drain a in
      let second = drain (first.0 ++ b) in
      ((drain (a ++ b)).0 ≡ second.0) × ((drain (a ++ b)).1 ≡ first.1 ++ second.1)
drain-append a b h =
    let left = (drain a).0 in
    let clean : HasNoCr left = drain-HasNoCr a in
    let joined : normalize (left ++ b) ≡ left ++ normalize b =
      normalize-append left b (ends_cr_of_HasNoCr left clean)
      ∙ ap (λ x. x ++ normalize b) (normalize_of_HasNoCr left clean) in
    let both = Drains-append (normalize b) (drain-Drains a) (
      subst (λ x. Drains x (drain (left ++ b)).0 (drain (left ++ b)).1) joined
        (drain-Drains (left ++ b))) in
    Drains-functional
      (subst (λ x. Drains x (drain (a ++ b)).0 (drain (a ++ b)).1) (normalize-append a b h)
        (drain-Drains (a ++ b)))
      both

-- the text of a list of chunks
abbrev pub concat : List Text → Text
concat [] = []
concat (c ∷ cs) = c ++ concat cs

pub flush_lem : (a : Text) → flush a ≡ (drain a).1 ++ flush_rest (drain a).0
unfolding flush
flush_lem a = refl

flush-append :
    (a b : Text) → ends_cr a ≡ false → flush (a ++ b) ≡ (drain a).1 ++ flush ((drain a).0 ++ b)
flush-append a b h =
    let (same_rest, same_events) = drain-append a b h in
    flush_lem (a ++ b)
    ∙ rw (same_rest, same_events)
        (append_assoc (drain a).1 (drain ((drain a).0 ++ b)).1 _
          ∙ ap (λ x. (drain a).1 ++ x) (sym (flush_lem ((drain a).0 ++ b))))

pub read_stream-cons :
    (buffer chunk : Text) (chunks : List Text) (last : Text)
    → read_stream buffer (chunk ∷ chunks) last
      ≡ (drain (buffer ++ chunk)).1 ++ read_stream (drain (buffer ++ chunk)).0 chunks last
unfolding read_stream
read_stream-cons buffer chunk chunks last = refl

read_stream-nil : (buffer last : Text) → read_stream buffer [] last ≡ flush (buffer ++ last)
unfolding read_stream
read_stream-nil buffer last = refl

read_stream_from :
    (buffer : Text) (chunks : List Text) (last : Text)
    → HasNoCr buffer
    → All (λ c. ends_cr c ≡ false) chunks
    → read_stream buffer chunks last ≡ flush (buffer ++ (concat chunks ++ last))
read_stream_from buffer [] last n h = read_stream-nil buffer last
read_stream_from buffer (c ∷ cs) last n h =
    let here = buffer ++ c in
    let rest = (drain here).0 in
    let whole : ends_cr here ≡ false = ends_cr-append buffer c (ends_cr_of_HasNoCr buffer n) h.0 in
    read_stream-cons buffer c cs last
    ∙ ap (λ x. (drain here).1 ++ x) (read_stream_from rest cs last (drain-HasNoCr here) h.1)
    ∙ sym (flush-append here (concat cs ++ last) whole)
    ∙ ap flush (
        append_assoc buffer c (concat cs ++ last)
        ∙ ap (λ x. buffer ++ x) (sym (append_assoc c (concat cs) last)))

-- If no chunk ends in a CR, the events of a stream are those of its whole text: it makes no
-- difference where the text is cut into chunks.
pub read_stream-eq-flush :
    (chunks : List Text) (last : Text)
    → All (λ c. ends_cr c ≡ false) chunks
    → read_stream [] chunks last ≡ flush (concat chunks ++ last)
read_stream-eq-flush chunks last h = read_stream_from [] chunks last tt h
