-- ===== src/Api/Subscription.antt =====
-- web/src/api/client.ts, the life of a subscription: `connect` and the stop function of `streamSSE`.
-- The host settles the promises that `connect` waits for, in any order, also one that was resolved
-- before the stop function was called; its choices are the inputs.
pub mod Safety
pub mod Reads
pub mod Recovery
mod Tests
use cron_agent_dashboard.Prelude.{
  Bool, true, false, not, ◌&&◌, ◌||◌, List, [], ◌∷◌, ◌++◌, map, Text, if◌then◌else◌,
}
use cron_agent_dashboard.Api.Stream.{Event, drain, flush}

-- What `connect` waits for: nothing, the response, or the next chunk behind a buffer
pub data Phase : Type 0 where
  idle fetching : Phase
  reading : Text → Phase

-- The variables of one call of `streamSSE`
pub record Subscription : Type 0 where
  pub reconnect : Bool
  pub stopped : Bool
  pub timer_armed : Bool
  pub phase : Phase

-- What happens next. A response is good or not (its status, or no body); a promise is rejected by an
-- abort or not; a chunk comes decoded, with what the decoder has left. The last argument says whether
-- the handler that is called, if any, calls the stop function.
pub data Input : Type 0 where
  responds : Bool → Bool → Input
  rejects : Bool → Bool → Input
  chunk : Text → Text → Bool → Input
  ends : Text → Bool → Input
  timer_fires : Input
  unsubscribes : Input

-- What the subscription does: it opens a connection, or calls one of its handlers.
pub data HandlerCall : Type 0 where
  fetches on_open on_error : HandlerCall
  on_event : Event → HandlerCall

-- `streamSSE` connects at once.
unfoldable pub subscribe : Bool → Subscription × List HandlerCall
subscribe reconnect = (
  record { reconnect = reconnect; stopped = false; timer_armed = false; phase = fetching },
  fetches ∷ [],
)

-- The stop function; the abort makes the host reject what `connect` waits for.
unfoldable pub stop : Subscription → Subscription
stop s = record s { stopped = true; timer_armed = false }

abbrev pub stop_if : Bool → Subscription → Subscription
stop_if b s = if b then stop s else s

-- the `finally` of `connect`
unfoldable pub close : Subscription → Subscription
close s = record s { phase = idle; timer_armed = s.timer_armed || (not s.stopped && s.reconnect) }

-- the `catch` of `connect`, and its `finally`
unfoldable pub fail : Bool → Bool → Subscription → Subscription × List HandlerCall
unfolding close stop
fail aborted stops s =
    if not s.stopped && not aborted then (close (stop_if stops s), on_error ∷ []) else (close s, [])

abbrev pub events_of : List Event → List HandlerCall
events_of = map on_event

abbrev pub has_any : List Event → Bool
has_any [] = false
has_any (e ∷ es) = true

-- A round of the reading loop. Only a handler that is called can stop the subscription meanwhile. When
-- it is stopped the loop ends, and what is left of the buffer is flushed.
unfoldable pub read_chunk :
    Text → Text → Text → Bool → Subscription → Subscription × List HandlerCall
unfolding stop close
read_chunk buffer text pending stops s =
    let (rest, events) = drain (buffer ++ text) in
    let s' = stop_if (stops && has_any events) s in
    if s'.stopped
    then (close s', events_of events ++ events_of (flush (rest ++ pending)))
    else (record s' { phase = reading rest }, events_of events)

-- `onOpen` and the test of the loop. A subscription that is stopped reads nothing: the buffer is empty.
unfoldable pub open_stream : Bool → Subscription → Subscription × List HandlerCall
unfolding stop close
open_stream stops s =
    let s' = stop_if stops s in
    if s'.stopped
    then (close s', on_open ∷ events_of (flush []))
    else (record s' { phase = reading [] }, on_open ∷ [])

-- The stream has ended: what is left of the buffer is flushed, and a handler may stop the subscription.
unfoldable pub end_stream : Text → Text → Bool → Subscription → Subscription × List HandlerCall
unfolding stop close
end_stream buffer last stops s =
    let events = flush (buffer ++ last) in
    (close (stop_if (stops && has_any events) s), events_of events)

abbrev pub while_fetching : Input → Subscription → Subscription × List HandlerCall
while_fetching (responds true stops) s = open_stream stops s
while_fetching (responds false stops) s = fail false stops s
while_fetching (rejects aborted stops) s = fail aborted stops s
while_fetching _ s = (s, [])

abbrev pub while_reading : Text → Input → Subscription → Subscription × List HandlerCall
while_reading buffer (chunk text pending stops) s = read_chunk buffer text pending stops s
while_reading buffer (ends last stops) s = end_stream buffer last stops s
while_reading buffer (rejects aborted stops) s = fail aborted stops s
while_reading _ _ s = (s, [])

abbrev pub while_idle : Input → Subscription → Subscription × List HandlerCall
while_idle timer_fires s =
    if s.timer_armed
    then (record s { timer_armed = false; phase = fetching }, fetches ∷ [])
    else (s, [])
while_idle _ s = (s, [])

abbrev pub proceed : Phase → Input → Subscription → Subscription × List HandlerCall
proceed idle i s = while_idle i s
proceed fetching i s = while_fetching i s
proceed (reading buffer) i s = while_reading buffer i s

-- An input that nothing waits for changes nothing.
unfoldable pub step : Subscription → Input → Subscription × List HandlerCall
unfolding fail open_stream read_chunk end_stream close stop
step s unsubscribes = (stop s, [])
step s (responds good stops) = proceed s.phase (responds good stops) s
step s (rejects aborted stops) = proceed s.phase (rejects aborted stops) s
step s (chunk text pending stops) = proceed s.phase (chunk text pending stops) s
step s (ends last stops) = proceed s.phase (ends last stops) s
step s timer_fires = proceed s.phase timer_fires s

-- The calls over a sequence of inputs
unfoldable pub run : Subscription → List Input → Subscription × List HandlerCall
unfolding step
run s [] = (s, [])
run s (i ∷ is) = let (s', calls) = step s i in let (s'', more) = run s' is in (s'', calls ++ more)
