-- ===== src/Api/Stream/SplitEnds.antt =====
-- A line end CR LF that falls on the border of two chunks.
use cron_agent_dashboard.Api.Stream.{
  length, false, suc, lf, cr, normalize, drain, drain_loop, flush, read_stream,
}
use mathlib.Core.List.{append_assoc, append-nil}
use cron_agent_dashboard.Prelude.{
  ◌≡◌, refl, sym, ap, ◌∙◌, List, [], ◌∷◌, ◌++◌, Text, All-append, arith,
}
use cron_agent_dashboard.Api.Stream.Lines.{HasNoCr, ends_cr, ends_cr_of_HasNoCr, normalize-append}
use cron_agent_dashboard.Api.Stream.Chunks.{read_stream-cons, read_stream-eq-flush}

drain_of_normalize : (s t : Text) → normalize s ≡ normalize t → drain s ≡ drain t
unfolding drain
drain_of_normalize s t e = ap (λ x. drain_loop (suc (length x)) x) e

-- The first chunk counts by what is drained from it.
read_stream_of_normalize :
    (s t : Text) (chunks : List Text) (last : Text)
    → normalize s ≡ normalize t
    → read_stream [] (s ∷ chunks) last ≡ read_stream [] (t ∷ chunks) last
read_stream_of_normalize s t chunks last e =
    read_stream-cons [] s chunks last
    ∙ ap (λ d. d.1 ++ read_stream d.0 chunks last) (drain_of_normalize s t e)
    ∙ sym (read_stream-cons [] t chunks last)

abbrev tail_same :
    (a s t : Text) → HasNoCr a → normalize s ≡ normalize t → normalize (a ++ s) ≡ normalize (a ++ t)
tail_same a s t n e =
    normalize-append a s (ends_cr_of_HasNoCr a n)
    ∙ ap (λ x. normalize a ++ x) e
    ∙ sym (normalize-append a t (ends_cr_of_HasNoCr a n))

-- Let `a` and `b` hold no CR. The text `a`, CR LF, `b` in one chunk is read as `a`, LF, `b`. If it
-- arrives as two chunks, cut between the CR and the LF, it is read as `a`, two LF, `b`: the reader
-- sees a blank line that nobody sent, and takes it for the end of an event.
pub read_stream-split_crlf :
    (a b last : Text)
    → HasNoCr a
    → HasNoCr b
    → (read_stream [] ((a ++ cr ∷ lf ∷ b) ∷ []) last ≡ flush (a ++ (lf ∷ b) ++ last))
      × (read_stream [] ((a ++ cr ∷ []) ∷ (lf ∷ b) ∷ []) last ≡ flush (a ++ (lf ∷ lf ∷ b) ++ last))
read_stream-split_crlf a b last n m =
    let whole : ends_cr (a ++ lf ∷ b) ≡ false =
      ends_cr_of_HasNoCr _ (All-append _ a (lf ∷ b) n (omega arith, m)) in
    let first : ends_cr (a ++ lf ∷ []) ≡ false =
      ends_cr_of_HasNoCr _ (All-append _ a (lf ∷ []) n (omega arith, tt)) in
    let second : ends_cr (lf ∷ b) ≡ false = ends_cr_of_HasNoCr (lf ∷ b) (omega arith, m) in
    (
      read_stream_of_normalize _ _ [] last (tail_same a (cr ∷ lf ∷ b) (lf ∷ b) n crlf)
          ∙ read_stream-eq-flush ((a ++ lf ∷ b) ∷ []) last (whole, tt)
          ∙ ap flush (simp (append_assoc, append-nil)),
      read_stream_of_normalize _ _ ((lf ∷ b) ∷ []) last (tail_same a (cr ∷ []) (lf ∷ []) n single)
          ∙ read_stream-eq-flush ((a ++ lf ∷ []) ∷ (lf ∷ b) ∷ []) last (first, (second, tt))
          ∙ ap flush (simp (append_assoc, append-nil)),
    )
  where
    crlf : normalize (cr ∷ lf ∷ b) ≡ normalize (lf ∷ b)
    crlf = unfold normalize in refl

    single : normalize (cr ∷ []) ≡ normalize (lf ∷ [])
    single = unfold normalize in refl
