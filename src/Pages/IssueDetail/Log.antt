-- ===== src/Pages/IssueDetail/Log.antt =====
-- The live log of a run: the chunks that streamRunLog of internal/httpapi/handlers_run.go cuts the file
-- into, and how RunLiveLogPanel of web/src/pages/IssueDetailPage.tsx puts them together.
use cron_agent_dashboard.Prelude.{
  ℕ, ◌≡◌, Bool, true, false, not, ◌&&◌, List, [], ◌∷◌, ◌++◌, Text, units, text_eq, is_empty,
  if◌then◌else◌, ◌==◌,
}

abbrev pub newline : ℕ
newline = 0x0a

-- `strings.TrimRight(text, "\n")`
abbrev pub cons_unless_newline : ℕ → Text → Text
cons_unless_newline c [] = if c == newline then [] else c ∷ []
cons_unless_newline c (d ∷ s) = c ∷ d ∷ s

unfoldable pub trim_right_newlines : Text → Text
trim_right_newlines [] = []
trim_right_newlines (c ∷ s) = cons_unless_newline c (trim_right_newlines s)

-- `prev.endsWith('\n')`
unfoldable pub ends_with_newline : Text → Bool
ends_with_newline [] = false
ends_with_newline (c ∷ []) = c == newline
ends_with_newline (c ∷ d ∷ s) = ends_with_newline (d ∷ s)

-- The update of `lines` by an event of name `chunk`
unfoldable pub append_chunk : Text → Text → Text
unfolding ends_with_newline
append_chunk prev text =
    prev
    ++ ((if not (is_empty prev) && not (ends_with_newline prev) then newline ∷ [] else []) ++ text)

pub record LogPanel : Type 0 where
  pub lines : Text
  pub done : Bool
  pub subscribed : Bool

-- The effect that opening the panel runs
abbrev pub open_log : LogPanel → LogPanel
open_log p = record { lines = []; done = false; subscribed = true }

unfoldable pub on_log_event : Text → Text → LogPanel → LogPanel
unfolding append_chunk
on_log_event event text p =
    if text_eq event (units "chunk")
    then record p { lines = append_chunk p.lines text }
    else if text_eq event (units "done")
    then record p { done = true; subscribed = false }
    else p

abbrev pub on_log_error : LogPanel → LogPanel
on_log_error p = record p { done = true }

-- What the panel shows of a file that was read in these pieces, whose text has no carriage returns, so that
-- the stream carries it unchanged
unfoldable pub show_pieces : Text → List Text → Text
unfolding append_chunk trim_right_newlines
show_pieces shown [] = shown
show_pieces shown (piece ∷ pieces) =
    show_pieces (append_chunk shown (trim_right_newlines piece)) pieces

abbrev pub concat : List Text → Text
concat [] = []
concat (p ∷ ps) = p ++ concat ps

-- A text that is not empty and does not end with a newline
abbrev pub IsOpen : Text → Type 0
IsOpen s = (is_empty s ≡ false) × (ends_with_newline s ≡ false)

-- The lines of a piece, each with its newline
abbrev pub close_line : Text → Text
close_line s = s ++ newline ∷ []
