-- ===== src/Api/Subscription/Safety.antt =====
-- What a subscription never does, and that it never falls asleep.
use cron_agent_dashboard.Prelude.{
  ◌≡◌, refl, Bool, true, false, not, ◌&&◌, ◌||◌, List, [], ◌∷◌, ◌++◌, inl, inr, All, All-append,
  arith, Bool-cases, Text,
}
use cron_agent_dashboard.Api.Stream.{Event, drain, flush}
use cron_agent_dashboard.Api.Subscription.{
  Phase, idle, fetching, reading, Subscription, Input, responds, rejects, chunk, ends, timer_fires,
  unsubscribes, HandlerCall, fetches, on_open, on_error, on_event, subscribe, stop, close, fail,
  read_chunk, open_stream, end_stream, stop_if, events_of, has_any, proceed, step, run,
}

abbrev is_idle : Phase → Bool
is_idle idle = true
is_idle _ = false

-- A timer is armed only between two connections and never once stopped; and while a subscription that
-- reconnects is not stopped, a connection is under way or a timer is armed.
pub record IsValid (s : Subscription) : Type 0 where
  pub one_at_a_time : (s.timer_armed && not (is_idle s.phase)) ≡ false
  pub quiet : (s.stopped && s.timer_armed) ≡ false
  pub awake : (s.stopped || not s.reconnect || s.timer_armed || not (is_idle s.phase)) ≡ true

subscribe-IsValid : (reconnect : Bool) → IsValid (subscribe reconnect).0
unfolding subscribe
subscribe-IsValid reconnect = ground arith

step-IsValid : (s : Subscription) (i : Input) → IsValid s → IsValid (step s i).0
unfolding step
step-IsValid s (responds true stops) v = ground arith
step-IsValid s (responds false stops) v = ground arith
step-IsValid s (rejects aborted stops) v = ground arith
step-IsValid s (chunk text pending stops) v = ground arith
step-IsValid s (ends last stops) v = ground arith
step-IsValid s timer_fires v = ground arith
step-IsValid s unsubscribes v = ground arith

run-IsValid : (s : Subscription) (is : List Input) → IsValid s → IsValid (run s is).0
unfolding run
run-IsValid s [] v = v
run-IsValid s (i ∷ is) v = run-IsValid (step s i).0 is (step-IsValid s i v)

-- After any inputs a timer is armed only between two connections, and never once the subscription is
-- stopped; and as long as one that reconnects is not stopped, a connection is under way or a timer for
-- the next one is armed.
pub run-subscribe-IsValid :
    (reconnect : Bool) (is : List Input) → IsValid (run (subscribe reconnect).0 is).0
run-subscribe-IsValid reconnect is =
    run-IsValid (subscribe reconnect).0 is (subscribe-IsValid reconnect)

-- A call that a stopped subscription may still make
abbrev pub MayStill : HandlerCall → Type 0
MayStill fetches = ⊥
MayStill on_error = ⊥
MayStill on_open = Unit
MayStill (on_event e) = Unit

events-MayStill : (es : List Event) → All MayStill (events_of es)
events-MayStill [] = tt
events-MayStill (e ∷ es) = (tt, events-MayStill es)

both_still : (es fs : List Event) → All MayStill (events_of es ++ events_of fs)
both_still es fs =
    All-append MayStill (events_of es) (events_of fs) (events-MayStill es) (events-MayStill fs)

read_chunk_stopped :
    (buffer text pending : Text) (stops : Bool) (s : Subscription)
    → s.stopped ≡ true
    → let (s', calls) = read_chunk buffer text pending stops s in
      (s'.stopped ≡ true) × All MayStill calls
unfolding read_chunk close stop
read_chunk_stopped buffer text pending stops s h =
    let d = drain (buffer ++ text) in
    elim (Bool-cases (stops && has_any d.1)) [
      | inl e ↦ rw e (refl, both_still d.1 (flush (d.0 ++ pending)))
      | inr e ↦ rw (e, h) (refl, both_still d.1 (flush (d.0 ++ pending)))
    ]

stop_if_stopped : (b : Bool) (s : Subscription) → s.stopped ≡ true → (stop_if b s).stopped ≡ true
unfolding stop
stop_if_stopped true s h = refl
stop_if_stopped false s h = h

proceed_stopped :
    (p : Phase) (i : Input) (s : Subscription)
    → s.stopped ≡ true
    → s.timer_armed ≡ false
    → ((proceed p i s).0.stopped ≡ true) × All MayStill (proceed p i s).1
unfolding fail open_stream end_stream close stop
proceed_stopped idle timer_fires s h t = rw t (h, tt)
proceed_stopped idle (responds good stops) s h t = (h, tt)
proceed_stopped idle (rejects aborted stops) s h t = (h, tt)
proceed_stopped idle (chunk text pending stops) s h t = (h, tt)
proceed_stopped idle (ends last stops) s h t = (h, tt)
proceed_stopped idle unsubscribes s h t = (h, tt)
proceed_stopped fetching (responds true true) s h t = (refl, (tt, events-MayStill (flush [])))
proceed_stopped fetching (responds true false) s h t = rw h (refl, (tt, events-MayStill (flush [])))
proceed_stopped fetching (responds false stops) s h t = rw h (refl, tt)
proceed_stopped fetching (rejects aborted stops) s h t = rw h (refl, tt)
proceed_stopped fetching (chunk text pending stops) s h t = (h, tt)
proceed_stopped fetching (ends last stops) s h t = (h, tt)
proceed_stopped fetching timer_fires s h t = (h, tt)
proceed_stopped fetching unsubscribes s h t = (h, tt)
proceed_stopped (reading buffer) (responds good stops) s h t = (h, tt)
proceed_stopped (reading buffer) (rejects aborted stops) s h t = rw h (refl, tt)
proceed_stopped (reading buffer) (chunk text pending stops) s h t =
    read_chunk_stopped buffer text pending stops s h
proceed_stopped (reading buffer) (ends last stops) s h t = (
  stop_if_stopped (stops && has_any (flush (buffer ++ last))) s h,
  events-MayStill (flush (buffer ++ last)),
)
proceed_stopped (reading buffer) timer_fires s h t = (h, tt)
proceed_stopped (reading buffer) unsubscribes s h t = (h, tt)

step_stopped :
    (s : Subscription) (i : Input)
    → s.stopped ≡ true
    → s.timer_armed ≡ false
    → ((step s i).0.stopped ≡ true) × All MayStill (step s i).1
unfolding step stop
step_stopped s unsubscribes h t = (refl, tt)
step_stopped s (responds good stops) h t = proceed_stopped s.phase (responds good stops) s h t
step_stopped s (rejects aborted stops) h t = proceed_stopped s.phase (rejects aborted stops) s h t
step_stopped s (chunk text pending stops) h t =
    proceed_stopped s.phase (chunk text pending stops) s h t
step_stopped s (ends last stops) h t = proceed_stopped s.phase (ends last stops) s h t
step_stopped s timer_fires h t = proceed_stopped s.phase timer_fires s h t

run_stopped :
    (s : Subscription) (is : List Input) → IsValid s → s.stopped ≡ true → All MayStill (run s is).1
unfolding run
run_stopped s [] v h = tt
run_stopped s (i ∷ is) v h =
    let (still, calls) = step_stopped s i h (ground arith) in
    All-append MayStill (step s i).1 (run (step s i).0 is).1 calls
      (run_stopped (step s i).0 is (step-IsValid s i v) still)

-- Once the stop function is called, after whatever came before, no connection is opened and no error
-- is reported, whatever comes after.
pub run_unsubscribed :
    (reconnect : Bool) (before after : List Input)
    → let s = (run (subscribe reconnect).0 before).0 in All MayStill (run (stop s) after).1
unfolding stop step
run_unsubscribed reconnect before after =
    let s = (run (subscribe reconnect).0 before).0 in
    run_stopped (stop s) after
      (step-IsValid s unsubscribes (run-subscribe-IsValid reconnect before)) refl
