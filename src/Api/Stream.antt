-- ===== src/Api/Stream.antt =====
-- web/src/api/client.ts, the reader of event streams: `dispatchSSEBlock`, `drainSSEBuffer` and
-- `flushSSEBuffer`, and the reading loop of `streamSSE` over the decoded chunks. The calls of
-- `onEvent` are the list of events, in order. The cursor of `drainSSEBuffer` is the text behind it.
-- Also the writer of the server's frames, internal/httpapi/handlers_run.go.
pub mod Lines
pub mod Chunks
pub mod Frames
pub mod SplitEnds
use cron_agent_dashboard.Prelude.{
  ℕ, zero, suc, Bool, true, false, ◌&&◌, Option, none, some, List, [], ◌∷◌, ◌++◌, map, Text, units,
  starts_with, trim_start, trim, is_empty, if◌then◌else◌, ◌==◌, length, drop,
}

pub record Event : Type 0 where
  pub name : Text
  pub payload : Text

abbrev pub lf : ℕ
lf = 10

abbrev pub cr : ℕ
cr = 13

abbrev pub begins_lf : Text → Bool
begins_lf [] = false
begins_lf (c ∷ s) = c == lf

-- `buffer.replace(/\r\n/g, '\n')`: a CR before an LF goes
pub join_crlf : Text → Text
join_crlf [] = []
join_crlf (c ∷ s) = if (c == cr) && begins_lf s then join_crlf s else c ∷ join_crlf s

-- `.replace(/\r/g, '\n')`
abbrev pub cr_to_lf : ℕ → ℕ
cr_to_lf c = if c == cr then lf else c

unfoldable pub normalize : Text → Text
unfolding join_crlf
normalize buffer = map cr_to_lf (join_crlf buffer)

abbrev pub cons_line : ℕ → List Text → List Text
cons_line c [] = (c ∷ []) ∷ []
cons_line c (l ∷ ls) = (c ∷ l) ∷ ls

-- `block.split('\n')`
pub split_lines : Text → List Text
split_lines [] = [] ∷ []
split_lines (c ∷ s) = let rest = split_lines s in if c == lf then [] ∷ rest else cons_line c rest

-- `lines.join('\n')`
pub join_lines : List Text → Text
join_lines [] = []
join_lines (l ∷ []) = l
join_lines (l ∷ k ∷ ks) = l ++ lf ∷ join_lines (k ∷ ks)

-- `rawLine.endsWith('\r') ? rawLine.slice(0, -1) : rawLine`
pub drop_cr : Text → Text
drop_cr [] = []
drop_cr (c ∷ []) = if c == cr then [] else c ∷ []
drop_cr (c ∷ d ∷ s) = c ∷ drop_cr (d ∷ s)

abbrev pub event_prefix : Text
event_prefix = units "event:"

abbrev pub data_prefix : Text
data_prefix = units "data:"

-- `value.startsWith(' ') ? value.slice(1) : value`
abbrev pub drop_space : Text → Text
drop_space [] = []
drop_space (c ∷ s) = if c == 32 then s else c ∷ s

-- The variables of the loop of `dispatchSSEBlock`
pub record Block : Type 0 where
  pub event_name : Text
  pub data_lines : List Text

abbrev pub fresh_block : Block
fresh_block = record { event_name = units "message"; data_lines = [] }

-- One round of the loop, from the line without its CR on
pub read_clean_line : Block → Text → Block
unfolding starts_with trim_start
read_clean_line b line =
    if is_empty line
    then b
    else if starts_with (units ":") line
    then b
    else if starts_with event_prefix line
    then record b { event_name = trim_start (drop 6 line) }
    else if starts_with data_prefix line
    then record b { data_lines = b.data_lines ++ drop_space (drop 5 line) ∷ [] }
    else b

pub read_line : Block → Text → Block
unfolding drop_cr read_clean_line
read_line b raw_line = read_clean_line b (drop_cr raw_line)

pub read_lines : Block → List Text → Block
read_lines b [] = b
read_lines b (l ∷ ls) = read_lines (read_line b l) ls

-- The event of a block, if it has data
abbrev pub emit : Block → List Event
emit b = elim b.data_lines [
  | [] ↦ []
  | l ∷ ls ↦ record { name = b.event_name; payload = join_lines (l ∷ ls) } ∷ []
]

unfoldable pub dispatch_block : Text → List Event
unfolding read_lines read_line split_lines join_lines
dispatch_block block = emit (read_lines fresh_block (split_lines block))

abbrev pub cons_block : ℕ → Option (Text × Text) → Option (Text × Text)
cons_block c none = none
cons_block c (some (block, rest)) = some (c ∷ block, rest)

-- `indexOf('\n\n', cursor)`: the text before the blank line and the text behind it
pub find_break : Text → Option (Text × Text)
find_break [] = none
find_break (c ∷ s) =
    let rest = find_break s in
    if (c == lf) && begins_lf s then some ([], drop 1 s) else cons_block c rest

-- The `while` of `drainSSEBuffer` on fuel: what is left of the buffer, and the events.
pub drain_loop : ℕ → Text → Text × List Event
drain_loop zero s = (s, [])
drain_loop (suc fuel) s = elim (find_break s) [
  | none ↦ (s, [])
  | some (block, rest) ↦
      let (left, events) = drain_loop fuel rest in (left, dispatch_block block ++ events)
]

-- Each round takes two characters at least, so the length is fuel enough.
unfoldable pub drain : Text → Text × List Event
unfolding drain_loop find_break dispatch_block normalize
drain buffer = let s = normalize buffer in drain_loop (suc (length s)) s

-- `if (rest.trim()) dispatchSSEBlock(rest, onEvent)`
pub flush_rest : Text → List Event
flush_rest rest = if is_empty (trim rest) then [] else dispatch_block rest

unfoldable pub flush : Text → List Event
unfolding drain trim flush_rest dispatch_block
flush buffer = let (rest, events) = drain buffer in events ++ flush_rest rest

-- The reading loop of `connect`, from the buffer on, over the decoded chunks up to the end of the
-- stream; `last` is what the decoder gives when it is closed.
unfoldable pub read_stream : Text → List Text → Text → List Event
unfolding drain flush
read_stream buffer [] last = flush (buffer ++ last)
read_stream buffer (chunk ∷ chunks) last =
    let (rest, events) = drain (buffer ++ chunk) in events ++ read_stream rest chunks last

-- What the server writes: a name, and the lines of the payload
pub record Frame : Type 0 where
  pub name : Text
  pub lines : List Text

-- `data: LINE\n` for each line
pub write_lines : List Text → Text
write_lines [] = []
write_lines (l ∷ ls) = units "data: " ++ (l ++ lf ∷ write_lines ls)

-- `event: NAME\n`, the lines, and a blank line
unfoldable pub write_frame : Frame → Text
unfolding write_lines
write_frame f = units "event: " ++ (f.name ++ lf ∷ (write_lines f.lines ++ lf ∷ []))

pub write_frames : List Frame → Text
write_frames [] = []
write_frames (f ∷ fs) = write_frame f ++ write_frames fs
