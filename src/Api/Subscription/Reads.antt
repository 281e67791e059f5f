-- ===== src/Api/Subscription/Reads.antt =====
-- A connection that is not stopped reads what `read_stream` reads.
use mathlib.Core.List.{append-nil}
use cron_agent_dashboard.Prelude.{
  if◌then◌else◌, trim, ◌≡◌, refl, sym, ap, ◌∙◌, Bool, true, false, List, [], ◌∷◌, ◌++◌, map, Text,
  All,
}
use cron_agent_dashboard.Api.Stream.{Event, Frame, write_frames, drain, flush, read_stream}
use cron_agent_dashboard.Api.Stream.Chunks.{concat}
use cron_agent_dashboard.Api.Stream.Frames.{IsFrame, frame_event, read_stream-write_frames}
use cron_agent_dashboard.Api.Subscription.{
  idle, reading, Subscription, Input, responds, chunk, ends, on_open, on_event, subscribe, close,
  read_chunk, open_stream, end_stream, events_of, step, run,
}

-- the inputs of a connection over which the chunks come one by one
abbrev pub arrivals : List Text → Text → List Input
arrivals [] last = ends last false ∷ []
arrivals (c ∷ cs) last = chunk c [] false ∷ arrivals cs last

abbrev is_reading : Bool → Text → Subscription
is_reading reconnect buffer = record {
  reconnect = reconnect;
  stopped = false;
  timer_armed = false;
  phase = reading buffer;
}

abbrev pub is_closed : Bool → Subscription
is_closed reconnect = record {
  reconnect = reconnect;
  stopped = false;
  timer_armed = reconnect;
  phase = idle;
}

events_of-append : (es fs : List Event) → events_of (es ++ fs) ≡ events_of es ++ events_of fs
events_of-append [] fs = refl
events_of-append (e ∷ es) fs = ap (on_event e ∷◌) (events_of-append es fs)

run_reading :
    (reconnect : Bool) (buffer : Text) (chunks : List Text) (last : Text)
    → run (is_reading reconnect buffer) (arrivals chunks last)
      ≡ (is_closed reconnect, events_of (read_stream buffer chunks last))
unfolding run step close read_chunk end_stream read_stream
run_reading reconnect buffer [] last = ap (λ x. (is_closed reconnect, x)) (append-nil _)
run_reading reconnect buffer (c ∷ cs) last =
    let d = drain (buffer ++ c) in
    ap (λ r. (r.0, events_of d.1 ++ r.1)) (run_reading reconnect d.0 cs last)
    ∙ ap (λ x. (is_closed reconnect, x)) (sym (events_of-append d.1 (read_stream d.0 cs last)))

-- A connection whose `onOpen` stops the subscription
abbrev pub is_stopped : Bool → Subscription
is_stopped reconnect = record {
  reconnect = reconnect;
  stopped = true;
  timer_armed = false;
  phase = idle;
}

run_unread :
    (reconnect : Bool) (chunks : List Text) (last : Text)
    → run (is_stopped reconnect) (arrivals chunks last) ≡ (is_stopped reconnect, [])
unfolding run step
run_unread reconnect [] last = refl
run_unread reconnect (c ∷ cs) last = run_unread reconnect cs last

no_events : events_of (flush []) ≡ []
unfolding flush drain trim
no_events = refl

run-read_stream :
    (reconnect stops : Bool) (chunks : List Text) (last : Text)
    → run (subscribe reconnect).0 (responds true stops ∷ arrivals chunks last) ≡ (
        if stops
        then (is_stopped reconnect, on_open ∷ [])
        else (is_closed reconnect, on_open ∷ events_of (read_stream [] chunks last)))
unfolding run step subscribe open_stream close
run-read_stream reconnect true chunks last =
    ap (λ r. (r.0, on_open ∷ events_of (flush []) ++ r.1)) (run_unread reconnect chunks last)
    ∙ rw no_events refl
run-read_stream reconnect false chunks last =
    ap (λ r. (r.0, on_open ∷ r.1)) (run_reading reconnect [] chunks last)

-- Let each frame have a name without line ends or leading space, and at least one line of payload,
-- each without line ends. A subscription that is not stopped before opens, gets the text of these frames,
-- cut into chunks anywhere, and sees it end. Unless `onOpen` stops it, it calls `onOpen`, then `onEvent`
-- with the event of each frame, in order, once each, and nothing else; then it waits for its timer if it
-- reconnects, and rests if not. If `onOpen` stops it, that is its only call, and it rests.
pub run-write_frames :
    (reconnect stops : Bool) (fs : List Frame) (chunks : List Text) (last : Text)
    → All IsFrame fs
    → concat chunks ++ last ≡ write_frames fs
    → run (subscribe reconnect).0 (responds true stops ∷ arrivals chunks last) ≡ (
        if stops
        then (is_stopped reconnect, on_open ∷ [])
        else (is_closed reconnect, on_open ∷ events_of (map frame_event fs)))
run-write_frames reconnect stops fs chunks last h e =
    run-read_stream reconnect stops chunks last
    ∙ ap
        (λ es.
          if stops
          then (is_stopped reconnect, on_open ∷ [])
          else (is_closed reconnect, on_open ∷ events_of es))
        (read_stream-write_frames fs chunks last h e)
