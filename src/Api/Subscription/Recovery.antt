-- ===== src/Api/Subscription/Recovery.antt =====
-- That a subscription always gets back to its stream.
use cron_agent_dashboard.Api.Subscription.{
  open_stream, Phase, idle, fetching, reading, Subscription, Input, responds, rejects, chunk, ends,
  timer_fires, unsubscribes, subscribe, step, run,
}
use cron_agent_dashboard.Prelude.{
  ◌≡◌, refl, sym, ◌∙◌, subst, Bool, true, false, List, [], ◌∷◌, arith,
}
use cron_agent_dashboard.Api.Subscription.Safety.{IsValid, run-subscribe-IsValid}

abbrev pub is_reading : Phase → Bool
is_reading (reading buffer) = true
is_reading _ = false

-- What has to happen for the stream to be read: the timer fires, and the server answers.
abbrev pub recovery : Phase → List Input
recovery idle = timer_fires ∷ responds true false ∷ []
recovery fetching = responds true false ∷ []
recovery (reading buffer) = []

recovers :
    (armed : Bool) (p : Phase)
    → IsValid (record { reconnect = true; stopped = false; timer_armed = armed; phase = p })
    → is_reading
        (run
          (record { reconnect = true; stopped = false; timer_armed = armed; phase = p })
          (recovery p)).0.phase
      ≡ true
unfolding run step open_stream
recovers true idle v = refl
recovers false idle v = ground (arith, v.awake)
recovers armed fetching v = refl
recovers armed (reading buffer) v = refl

step-reconnect : (s : Subscription) (i : Input) → (step s i).0.reconnect ≡ s.reconnect
unfolding step
step-reconnect s (responds true stops) = ground arith
step-reconnect s (responds false stops) = ground arith
step-reconnect s (rejects aborted stops) = ground arith
step-reconnect s (chunk text pending stops) = ground arith
step-reconnect s (ends last stops) = ground arith
step-reconnect s timer_fires = ground arith
step-reconnect s unsubscribes = ground arith

run-reconnect : (s : Subscription) (is : List Input) → (run s is).0.reconnect ≡ s.reconnect
unfolding run
run-reconnect s [] = refl
run-reconnect s (i ∷ is) = run-reconnect (step s i).0 is ∙ step-reconnect s i

valid-recovers :
    (s : Subscription)
    → s.reconnect ≡ true
    → s.stopped ≡ false
    → IsValid s
    → is_reading (run s (recovery s.phase)).0.phase ≡ true
valid-recovers s r t =
    subst (λ x. IsValid x → is_reading (run x (recovery x.phase)).0.phase ≡ true) (sym running)
      (recovers s.timer_armed s.phase)
  where
    running :
        s
        ≡ record { reconnect = true; stopped = false; timer_armed = s.timer_armed; phase = s.phase }
    running i = record {
      reconnect = r i;
      stopped = t i;
      timer_armed = s.timer_armed;
      phase = s.phase;
    }

-- After any inputs that leave a subscription which reconnects not stopped, it reads its stream again once
-- its timer fires, where it waits between two connections, and the server answers well without `onOpen`
-- stopping it.
pub run-recovers :
    (is : List Input)
    → (run (subscribe true).0 is).0.stopped ≡ false
    → is_reading
        (run (run (subscribe true).0 is).0 (recovery (run (subscribe true).0 is).0.phase)).0.phase
      ≡ true
unfolding subscribe
run-recovers is t =
    valid-recovers (run (subscribe true).0 is).0 (run-reconnect (subscribe true).0 is) t
      (run-subscribe-IsValid true is)
