-- ===== src/Pages/IssueDetail/Realtime.antt =====
-- web/src/pages/IssueDetailPage.tsx: the flag `realtimeFallback`, which the handlers of the event stream
-- set, over what the stream of web/src/api/client.ts does.
use cron_agent_dashboard.Prelude.{
  ◌≡◌, refl, ◌∙◌, subst, inl, inr, Bool, true, false, not, ◌&&◌, List, [], ◌∷◌, ◌++◌, arith, Text,
  Bool-cases,
}
use cron_agent_dashboard.Api.Subscription.{
  has_any, Phase, idle, fetching, reading, Subscription, Input, responds, rejects, chunk, ends,
  timer_fires, unsubscribes, HandlerCall, fetches, on_open, on_error, on_event, subscribe, stop,
  close, fail, read_chunk, open_stream, end_stream, events_of, proceed, step, run,
}
use cron_agent_dashboard.Api.Stream.{Event, drain, flush}

-- `onOpen` and `onError` of the page
abbrev pub set_fallback : HandlerCall → Bool → Bool
set_fallback on_open realtime_fallback = false
set_fallback on_error realtime_fallback = true
set_fallback fetches realtime_fallback = realtime_fallback
set_fallback (on_event event) realtime_fallback = realtime_fallback

-- The flag after the calls of the stream
abbrev pub fallback_after : List HandlerCall → Bool → Bool
fallback_after [] realtime_fallback = realtime_fallback
fallback_after (c ∷ cs) realtime_fallback = fallback_after cs (set_fallback c realtime_fallback)

abbrev pub is_reading : Phase → Bool
is_reading (reading buffer) = true
is_reading _ = false

fallback_after-append :
    (cs ds : List HandlerCall) (f : Bool)
    → fallback_after (cs ++ ds) f ≡ fallback_after ds (fallback_after cs f)
fallback_after-append [] ds f = refl
fallback_after-append (c ∷ cs) ds f = fallback_after-append cs ds (set_fallback c f)

fallback_after-events : (es : List Event) (f : Bool) → fallback_after (events_of es) f ≡ f
fallback_after-events [] f = refl
fallback_after-events (e ∷ es) f = fallback_after-events es f

-- While the stream is read the fallback is off.
abbrev IsOff : Subscription → Bool → Type 0
IsOff s f = (is_reading s.phase && f) ≡ false

off : (p : Phase) (f : Bool) → f ≡ false → (is_reading p && f) ≡ false
off p f h = ground (arith, h)

read_chunk_keeps :
    (buffer text pending : Text) (stops : Bool) (s : Subscription) (f : Bool)
    → fallback_after (read_chunk buffer text pending stops s).1 f ≡ f
unfolding read_chunk stop close
read_chunk_keeps buffer text pending stops s f =
    let d = drain (buffer ++ text) in
    let both : fallback_after (events_of d.1 ++ events_of (flush (d.0 ++ pending))) f ≡ f =
      fallback_after-append (events_of d.1) (events_of (flush (d.0 ++ pending))) f
      ∙ fallback_after-events (flush (d.0 ++ pending)) (fallback_after (events_of d.1) f)
      ∙ fallback_after-events d.1 f in
    elim (Bool-cases (stops && has_any d.1)) [
      | inl e ↦ rw e both
      | inr e ↦ elim (Bool-cases s.stopped) [
        | inl t ↦ rw (e, t) both
        | inr t ↦ rw (e, t) (fallback_after-events d.1 f)
      ]
    ]

proceed-IsOff :
    (p : Phase) (i : Input) (s : Subscription) (f : Bool)
    → s.phase ≡ p
    → IsOff s f
    → IsOff (proceed p i s).0 (fallback_after (proceed p i s).1 f)
unfolding fail open_stream end_stream stop close
proceed-IsOff idle timer_fires s f e h = ground (arith, h)
proceed-IsOff idle (responds good stops) s f e h = h
proceed-IsOff idle (rejects aborted stops) s f e h = h
proceed-IsOff idle (chunk text pending stops) s f e h = h
proceed-IsOff idle (ends last stops) s f e h = h
proceed-IsOff idle unsubscribes s f e h = h
proceed-IsOff fetching (responds true true) s f e h = refl
proceed-IsOff fetching (responds true false) s f e h = elim (Bool-cases s.stopped) [
  | inl t ↦ rw t refl
  | inr t ↦ rw t refl
]
proceed-IsOff fetching (responds false stops) s f e h = ground arith
proceed-IsOff fetching (rejects aborted stops) s f e h = ground arith
proceed-IsOff fetching (chunk text pending stops) s f e h = h
proceed-IsOff fetching (ends last stops) s f e h = h
proceed-IsOff fetching timer_fires s f e h = h
proceed-IsOff fetching unsubscribes s f e h = h
proceed-IsOff (reading buffer) (responds good stops) s f e h = h
proceed-IsOff (reading buffer) (rejects aborted stops) s f e h = ground arith
proceed-IsOff (reading buffer) (chunk text pending stops) s f e h =
    let was : f ≡ false = subst (λ q. (is_reading q && f) ≡ false) e h in
    rw (read_chunk_keeps buffer text pending stops s f) (off _ f was)
proceed-IsOff (reading buffer) (ends last stops) s f e h = refl
proceed-IsOff (reading buffer) timer_fires s f e h = h
proceed-IsOff (reading buffer) unsubscribes s f e h = h

step-IsOff :
    (s : Subscription) (i : Input) (f : Bool)
    → IsOff s f
    → IsOff (step s i).0 (fallback_after (step s i).1 f)
unfolding step stop
step-IsOff s unsubscribes f h = h
step-IsOff s (responds good stops) f h = proceed-IsOff s.phase (responds good stops) s f refl h
step-IsOff s (rejects aborted stops) f h = proceed-IsOff s.phase (rejects aborted stops) s f refl h
step-IsOff s (chunk text pending stops) f h =
    proceed-IsOff s.phase (chunk text pending stops) s f refl h
step-IsOff s (ends last stops) f h = proceed-IsOff s.phase (ends last stops) s f refl h
step-IsOff s timer_fires f h = proceed-IsOff s.phase timer_fires s f refl h

run-IsOff :
    (s : Subscription) (is : List Input) (f : Bool)
    → IsOff s f
    → IsOff (run s is).0 (fallback_after (run s is).1 f)
unfolding run
run-IsOff s [] f h = h
run-IsOff s (i ∷ is) f h =
    let s' = (step s i).0 in
    rw (fallback_after-append (step s i).1 (run s' is).1 f)
      (run-IsOff s' is (fallback_after (step s i).1 f) (step-IsOff s i f h))

-- The connection has failed: a bad response, or a rejection that is no abort, where it was awaited
abbrev pub is_failure : Phase → Input → Bool
is_failure fetching (responds good stops) = not good
is_failure fetching (rejects aborted stops) = not aborted
is_failure (reading buffer) (rejects aborted stops) = not aborted
is_failure _ _ = false

fails-on :
    (p : Phase) (i : Input) (s : Subscription) (f : Bool)
    → is_failure p i ≡ true
    → s.stopped ≡ false
    → fallback_after (proceed p i s).1 f ≡ true
unfolding fail open_stream end_stream stop close
fails-on idle i s f h t = absurd (ground (arith, h))
fails-on fetching (responds good stops) s f h t = ground (arith, h, t)
fails-on fetching (rejects aborted stops) s f h t = ground (arith, h, t)
fails-on fetching (chunk text pending stops) s f h t = absurd (ground (arith, h))
fails-on fetching (ends last stops) s f h t = absurd (ground (arith, h))
fails-on fetching timer_fires s f h t = absurd (ground (arith, h))
fails-on fetching unsubscribes s f h t = absurd (ground (arith, h))
fails-on (reading buffer) (responds good stops) s f h t = absurd (ground (arith, h))
fails-on (reading buffer) (rejects aborted stops) s f h t = ground (arith, h, t)
fails-on (reading buffer) (chunk text pending stops) s f h t = absurd (ground (arith, h))
fails-on (reading buffer) (ends last stops) s f h t = absurd (ground (arith, h))
fails-on (reading buffer) timer_fires s f h t = absurd (ground (arith, h))
fails-on (reading buffer) unsubscribes s f h t = absurd (ground (arith, h))

no_unsubscribe : (p : Phase) → is_failure p unsubscribes ≡ true → ⊥
no_unsubscribe idle h = ground (arith, h)
no_unsubscribe fetching h = ground (arith, h)
no_unsubscribe (reading buffer) h = ground (arith, h)

step_proceeds :
    (s : Subscription) (i : Input) → is_failure s.phase i ≡ true → step s i ≡ proceed s.phase i s
unfolding step
step_proceeds s unsubscribes h = absurd (no_unsubscribe s.phase h)
step_proceeds s (responds good stops) h = refl
step_proceeds s (rejects aborted stops) h = refl
step_proceeds s (chunk text pending stops) h = refl
step_proceeds s (ends last stops) h = refl
step_proceeds s timer_fires h = refl

-- After any inputs of a stream that the page subscribed to, and whatever the fallback was before, it is off
-- while the stream is read; and when the connection then fails, it is on, unless the page has unsubscribed.
pub run-set_fallback :
    (reconnect before : Bool) (is : List Input) (i : Input)
    → let (s, calls) = run (subscribe reconnect).0 is in
      ((is_reading s.phase && fallback_after calls before) ≡ false)
      × ((is_failure s.phase i
            && not s.stopped
            && not (fallback_after (calls ++ (step s i).1) before))
          ≡ false)
unfolding subscribe
run-set_fallback reconnect before is i =
    let start = (subscribe reconnect).0 in
    let s = (run start is).0 in
    let calls = (run start is).1 in
    (
      run-IsOff start is before refl,
      rw (fallback_after-append calls (step s i).1 before)
          (elim (Bool-cases (is_failure s.phase i)) [
            | inl e ↦ elim (Bool-cases s.stopped) [
              | inl t ↦ ground (arith, e, t)
              | inr t ↦
                  let on : fallback_after (step s i).1 (fallback_after calls before) ≡ true =
                    rw (step_proceeds s i e)
                      (fails-on s.phase i s (fallback_after calls before) e t) in
                  ground (arith, e, t, on)
            ]
            | inr e ↦ ground (arith, e)
          ]),
    )
