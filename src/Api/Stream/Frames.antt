-- ===== src/Api/Stream/Frames.antt =====
-- The round trip of a stream: what the server writes as frames comes out as the same events.
use cron_agent_dashboard.Api.Stream.Chunks.{
  find_break-here, find_break-later, Drains, Drains-functional, drain-Drains, flush_lem, concat,
  read_stream-eq-flush,
}
use cron_agent_dashboard.Prelude.{
  ℕ, ◌≡◌, refl, sym, ap, ◌∙◌, subst, ◌≢◌, false, Option, some, List, [], ◌∷◌, ◌++◌, map, Text,
  units, All, All-append, trim_start, trim, arith,
}
use mathlib.Core.List.{append-nil, append_assoc}
use cron_agent_dashboard.Api.Stream.{
  lf, Event, Frame, Block, fresh_block, read_clean_line, read_line, read_lines, emit,
  dispatch_block, cons_block, find_break, write_lines, write_frame, write_frames, join_lines, drain,
  flush, flush_rest, read_stream,
}
use cron_agent_dashboard.Api.Stream.Lines.{
  HasNoCr, IsLine, IsLine-HasNoCr, ends_cr, ends_cr_of_HasNoCr, normalize_of_HasNoCr,
  split_lines-join_lines, drop_cr_of_IsLine,
}

-- A name without line ends or leading space, and at least one line of payload, each without line ends
pub record IsFrame (f : Frame) : Type 0 where
  pub name-IsLine : IsLine f.name
  pub name_starts : trim_start f.name ≡ f.name
  pub lines-IsLine : All IsLine f.lines
  pub has_lines : f.lines ≢ []

abbrev pub frame_event : Frame → Event
frame_event f = record { name = f.name; payload = join_lines f.lines }

abbrev frame_of : Text → List Text → Frame
frame_of n ls = record { name = n; lines = ls }

abbrev name_line : Frame → Text
name_line f = units "event: " ++ f.name

abbrev data_line : Text → Text
data_line l = units "data: " ++ l

-- the lines of a frame, down to its blank line
abbrev block_lines : Frame → List Text
block_lines f = name_line f ∷ map data_line f.lines

event-IsLine : (s : Text) → IsLine s → IsLine (units "event: " ++ s)
event-IsLine s h = All-append _ (units "event: ") s (omega arith) h

payload-IsLine : (s : Text) → IsLine s → IsLine (data_line s)
payload-IsLine s h = All-append _ (units "data: ") s (omega arith) h

payloads-IsLine : (ls : List Text) → All IsLine ls → All IsLine (map data_line ls)
payloads-IsLine [] h = tt
payloads-IsLine (l ∷ ls) h = (payload-IsLine l h.0, payloads-IsLine ls h.1)

-- The writer's text is the lines, joined, and two line ends.
write_lines-eq :
    (l : Text) (ls : List Text) (rest : Text)
    → write_lines (l ∷ ls) ++ lf ∷ rest ≡ join_lines (map data_line (l ∷ ls)) ++ lf ∷ lf ∷ rest
unfolding write_lines join_lines
write_lines-eq l [] rest = ap (units "data: " ++◌) (append_assoc l (lf ∷ []) (lf ∷ rest))
write_lines-eq l (k ∷ ks) rest = ap (units "data: " ++◌) (
    append_assoc l (lf ∷ write_lines (k ∷ ks)) (lf ∷ rest)
    ∙ ap (λ x. l ++ lf ∷ x) (write_lines-eq k ks rest)
    ∙ sym (append_assoc l (lf ∷ join_lines (map data_line (k ∷ ks))) (lf ∷ lf ∷ rest)))

read_line_of_IsLine : (b : Block) (l : Text) → IsLine l → read_line b l ≡ read_clean_line b l
unfolding read_line
read_line_of_IsLine b l h = ap (read_clean_line b) (drop_cr_of_IsLine l h)

read_name_line :
    (b : Block) (s : Text)
    → IsLine s
    → trim_start s ≡ s
    → read_line b (units "event: " ++ s) ≡ record b { event_name = s }
unfolding read_clean_line
read_name_line b s h t =
    read_line_of_IsLine b (units "event: " ++ s) (event-IsLine s h)
    ∙ ap (λ x. record b { event_name = x }) t

read_data_line :
    (b : Block) (s : Text)
    → IsLine s
    → read_line b (data_line s) ≡ record b { data_lines = b.data_lines ++ s ∷ [] }
unfolding read_clean_line
read_data_line b s h = read_line_of_IsLine b (data_line s) (payload-IsLine s h)

abbrev block_of : Text → List Text → Block
block_of n ds = record { event_name = n; data_lines = ds }

read_data_lines :
    (n : Text) (ds ls : List Text)
    → All IsLine ls
    → read_lines (block_of n ds) (map data_line ls) ≡ block_of n (ds ++ ls)
unfolding read_lines
read_data_lines n ds [] h = ap (block_of n) (sym (append-nil ds))
read_data_lines n ds (l ∷ ls) h =
    ap (λ b. read_lines b (map data_line ls)) (read_data_line (block_of n ds) l h.0)
    ∙ read_data_lines n (ds ++ l ∷ []) ls h.1
    ∙ ap (block_of n) (append_assoc ds (l ∷ []) ls)

read_lines-cons :
    (b : Block) (l : Text) (ls : List Text) → read_lines b (l ∷ ls) ≡ read_lines (read_line b l) ls
unfolding read_lines
read_lines-cons b l ls = refl

-- The block of a frame gives its event.
dispatch_block-block_lines :
    (n l : Text) (ls : List Text)
    → IsLine n
    → trim_start n ≡ n
    → IsLine l
    → All IsLine ls
    → dispatch_block (join_lines (block_lines (frame_of n (l ∷ ls))))
      ≡ frame_event (frame_of n (l ∷ ls)) ∷ []
unfolding dispatch_block
dispatch_block-block_lines n l ls hn t hl hs =
    let rest = map data_line (l ∷ ls) in
    ap (λ x. emit (read_lines fresh_block x))
      (split_lines-join_lines (units "event: " ++ n) rest (event-IsLine n hn)
        (payloads-IsLine (l ∷ ls) (hl, hs)))
    ∙ ap emit (
        read_lines-cons fresh_block (units "event: " ++ n) rest
        ∙ ap (λ b. read_lines b rest) (read_name_line fresh_block n hn t)
        ∙ read_data_lines n [] (l ∷ ls) (hl, hs))

abbrev prepend : Text → Option (Text × Text) → Option (Text × Text)
prepend [] o = o
prepend (c ∷ s) o = cons_block c (prepend s o)

find_break-ne : (c : ℕ) (s : Text) → c ≢ lf → find_break (c ∷ s) ≡ cons_block c (find_break s)
unfolding find_break
find_break-ne c s ne = ground arith

find_break-line : (l s : Text) → IsLine l → find_break (l ++ s) ≡ prepend l (find_break s)
find_break-line [] s h = refl
find_break-line (c ∷ l) s h =
    find_break-ne c (l ++ s) h.0.0 ∙ ap (cons_block c) (find_break-line l s h.1)

prepend-some : (l : Text) (block r : Text) → prepend l (some (block, r)) ≡ some (l ++ block, r)
prepend-some [] block r = refl
prepend-some (c ∷ l) block r = ap (cons_block c) (prepend-some l block r)

find_break-blank : (s : Text) → find_break (lf ∷ lf ∷ s) ≡ some ([], s)
find_break-blank s = find_break-here lf lf s refl

-- Between lines that are not empty there is no blank line.
find_break-join_lines :
    (l : Text) (ls : List Text) (rest : Text)
    → IsLine l
    → All IsLine ls
    → find_break (join_lines (l ∷ map data_line ls) ++ lf ∷ lf ∷ rest)
      ≡ some (join_lines (l ∷ map data_line ls), rest)
unfolding join_lines
find_break-join_lines l [] rest h k =
    find_break-line l (lf ∷ lf ∷ rest) h
    ∙ ap (prepend l) (find_break-blank rest)
    ∙ prepend-some l [] rest
    ∙ ap (λ x. some (x, rest)) (append-nil l)
find_break-join_lines l (m ∷ ms) rest h k =
    let more = join_lines (data_line m ∷ map data_line ms) in
    ap find_break (append_assoc l (lf ∷ more) (lf ∷ lf ∷ rest))
    ∙ find_break-line l (lf ∷ (more ++ lf ∷ lf ∷ rest)) h
    ∙ ap (prepend l) (
        later m ms
        ∙ ap (cons_block lf)
            (find_break-join_lines (data_line m) ms rest (payload-IsLine m k.0) k.1))
    ∙ prepend-some l (lf ∷ more) rest
  where
    later :
        (m : Text) (ms : List Text)
        → find_break (lf ∷ (join_lines (data_line m ∷ map data_line ms) ++ lf ∷ lf ∷ rest))
          ≡ cons_block lf
              (find_break (join_lines (data_line m ∷ map data_line ms) ++ lf ∷ lf ∷ rest))
    later m [] = find_break-later lf 100 _ refl
    later m (k ∷ ks) = find_break-later lf 100 _ refl

write_frame-eq :
    (n l : Text) (ls : List Text) (rest : Text)
    → write_frame (frame_of n (l ∷ ls)) ++ rest
      ≡ join_lines (block_lines (frame_of n (l ∷ ls))) ++ lf ∷ lf ∷ rest
unfolding write_frame join_lines
write_frame-eq n l ls rest =
    let body = write_lines (l ∷ ls) in
    let joined = join_lines (map data_line (l ∷ ls)) in
    ap (units "event: " ++◌) (
      append_assoc n (lf ∷ (body ++ lf ∷ [])) rest
      ∙ ap (λ x. n ++ lf ∷ x) (append_assoc body (lf ∷ []) rest ∙ write_lines-eq l ls rest)
      ∙ sym (append_assoc n (lf ∷ joined) (lf ∷ lf ∷ rest)))

write_frame-Drains :
    (n : Text) (lines : List Text) (rest : Text) {events : List Event}
    → IsFrame (frame_of n lines)
    → Drains rest [] events
    → Drains (write_frame (frame_of n lines) ++ rest) [] (frame_event (frame_of n lines) ∷ events)
write_frame-Drains n [] rest h d = absurd (h.has_lines refl)
write_frame-Drains n (l ∷ ls) rest {events} h d =
    let f = frame_of n (l ∷ ls) in
    let block = join_lines (block_lines f) in
    let lines = h.lines-IsLine in
    let found =
      ap find_break (write_frame-eq n l ls rest)
      ∙ find_break-join_lines (units "event: " ++ n) (l ∷ ls) rest (event-IsLine n h.name-IsLine)
          lines in
    subst (λ x. Drains (write_frame f ++ rest) [] (x ++ events))
      (dispatch_block-block_lines n l ls h.name-IsLine h.name_starts lines.0 lines.1)
      (Drains.next {block = block} found d)

write_frames-Drains :
    (fs : List Frame) → All IsFrame fs → Drains (write_frames fs) [] (map frame_event fs)
unfolding write_frames
write_frames-Drains [] h = Drains.stop {s = []} (unfold find_break in refl)
write_frames-Drains (f ∷ fs) h =
    write_frame-Drains f.name f.lines (write_frames fs) h.0 (write_frames-Drains fs h.1)

write_lines-HasNoCr : (ls : List Text) → All IsLine ls → HasNoCr (write_lines ls)
unfolding write_lines
write_lines-HasNoCr [] h = tt
write_lines-HasNoCr (l ∷ ls) h =
    All-append _ (units "data: ") _ (omega arith)
      (All-append _ l _ (IsLine-HasNoCr l h.0) (omega arith, write_lines-HasNoCr ls h.1))

write_frame-HasNoCr : (f : Frame) → IsFrame f → HasNoCr (write_frame f)
unfolding write_frame
write_frame-HasNoCr f h = All-append _ (units "event: ") _ (omega arith) (
    All-append _ f.name _ (IsLine-HasNoCr f.name h.name-IsLine) (
      omega arith,
      All-append _ (write_lines f.lines) _ (write_lines-HasNoCr f.lines h.lines-IsLine)
          (omega arith, tt),
    ))

write_frames-HasNoCr : (fs : List Frame) → All IsFrame fs → HasNoCr (write_frames fs)
unfolding write_frames
write_frames-HasNoCr [] h = tt
write_frames-HasNoCr (f ∷ fs) h =
    All-append _ (write_frame f) _ (write_frame-HasNoCr f h.0) (write_frames-HasNoCr fs h.1)

flush-write_frames :
    (fs : List Frame) → All IsFrame fs → flush (write_frames fs) ≡ map frame_event fs
flush-write_frames fs h =
    let text = write_frames fs in
    let clean = normalize_of_HasNoCr text (write_frames-HasNoCr fs h) in
    let (rest, events) =
      Drains-functional
        (subst (λ x. Drains x (drain text).0 (drain text).1) clean (drain-Drains text))
        (write_frames-Drains fs h) in
    flush_lem text ∙ rw (rest, events) (append-nil-flushed (map frame_event fs))
  where
    append-nil-flushed : (es : List Event) → es ++ flush_rest [] ≡ es
    append-nil-flushed es = unfold flush_rest trim in append-nil es

HasNoCr-split : (a b : Text) → HasNoCr (a ++ b) → HasNoCr a × HasNoCr b
HasNoCr-split [] b h = (tt, h)
HasNoCr-split (c ∷ a) b h = let (p, q) = HasNoCr-split a b h.1 in ((h.0, p), q)

chunks_whole :
    (chunks : List Text) (last : Text)
    → HasNoCr (concat chunks ++ last)
    → All (λ c. ends_cr c ≡ false) chunks
chunks_whole [] last h = tt
chunks_whole (c ∷ cs) last h =
    let (p, q) = HasNoCr-split c (concat cs ++ last) (rw append_assoc at h) in
    (ends_cr_of_HasNoCr c p, chunks_whole cs last q)

-- Let each frame have a name without line ends or leading space, and at least one line of payload,
-- each without line ends. However the text of these frames is cut into chunks, the client's reader
-- calls `onEvent` with the event of each frame, in order, once each, and with nothing else.
pub read_stream-write_frames :
    (fs : List Frame) (chunks : List Text) (last : Text)
    → All IsFrame fs
    → concat chunks ++ last ≡ write_frames fs
    → read_stream [] chunks last ≡ map frame_event fs
read_stream-write_frames fs chunks last h e =
    let clean : HasNoCr (concat chunks ++ last) = rw e (write_frames-HasNoCr fs h) in
    read_stream-eq-flush chunks last (chunks_whole chunks last clean)
    ∙ ap flush e
    ∙ flush-write_frames fs h
