-- ===== src/Api/Subscription/Tests.antt =====
-- A subscription that loses its connection, and one that is stopped.
use cron_agent_dashboard.Prelude.{
  ◌≡◌, refl, true, false, List, [], ◌∷◌, map, units, All, arith, trim_start,
}
use cron_agent_dashboard.Api.Stream.{Frame, write_frames, drain}
use cron_agent_dashboard.Api.Stream.Frames.{IsFrame, frame_event}
use cron_agent_dashboard.Api.Subscription.{
  Input, responds, rejects, chunk, timer_fires, fetches, on_open, on_error, subscribe, stop, run,
  events_of,
}
use cron_agent_dashboard.Api.Subscription.Safety.{
  IsValid, run-subscribe-IsValid, MayStill, run_unsubscribed,
}
use cron_agent_dashboard.Api.Subscription.Recovery.{is_reading, recovery, run-recovers}
use cron_agent_dashboard.Api.Subscription.Reads.{arrivals, is_closed, run-write_frames}

abbrev lost : List Input
lost =
    responds true false ∷ chunk (units "data: a") [] false ∷ rejects false false ∷ timer_fires ∷ []

lost_calls : (run (subscribe true).0 lost).1 ≡ on_open ∷ on_error ∷ fetches ∷ []
unfolding run subscribe drain
lost_calls = refl

run-subscribe-IsValid_example : IsValid (run (subscribe true).0 lost).0
run-subscribe-IsValid_example = run-subscribe-IsValid true lost

run_unsubscribed_example : All MayStill (run (stop (run (subscribe true).0 lost).0) lost).1
run_unsubscribed_example = run_unsubscribed true lost lost

abbrev done_frame : Frame
done_frame = record { name = units "done"; lines = units "ok" ∷ [] }

done_frame-IsFrame : IsFrame done_frame
unfolding trim_start
done_frame-IsFrame = record {
  name-IsLine = omega arith;
  name_starts = refl;
  lines-IsLine = (omega arith, tt);
  has_lines = λ e. cc;
}

run-write_frames_example :
    run (subscribe true).0 (responds true false ∷ arrivals [] (write_frames (done_frame ∷ [])))
    ≡ (is_closed true, on_open ∷ events_of (map frame_event (done_frame ∷ [])))
run-write_frames_example =
    run-write_frames true false (done_frame ∷ []) [] (write_frames (done_frame ∷ []))
      (done_frame-IsFrame, tt) refl

run-recovers_example :
    is_reading
      (run (run (subscribe true).0 lost).0 (recovery (run (subscribe true).0 lost).0.phase)).0.phase
    ≡ true
unfolding run subscribe drain
run-recovers_example = run-recovers lost refl
