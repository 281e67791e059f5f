-- ===== src/Pages/IssueDetail/Tests.antt =====
-- Runs of the issue page at concrete inputs.
use cron_agent_dashboard.Prelude.{
  ◌≡◌, true, false, not, ◌&&◌, none, some, List, [], ◌∷◌, ◌++◌, units, filter, any, length,
}
use cron_agent_dashboard.Api.Subscription.{
  Input, responds, rejects, timer_fires, run, step, subscribe,
}
use cron_agent_dashboard.Pages.IssueDetail.{Address, AttachedFile, Posted, answered, add_comment}
use cron_agent_dashboard.Pages.IssueDetail.Comments.{
  add_comment_lem, is_reset, is_upload, is_failure, is_answered, all_uploads,
}
use cron_agent_dashboard.Pages.IssueDetail.Realtime.{run-set_fallback, fallback_after, is_reading}
use cron_agent_dashboard.Pages.IssueDetail.Realtime

abbrev two_files : List AttachedFile
two_files =
    record { name = units "a.txt"; failure = none }
    ∷ record { name = units "b.txt"; failure = some (some (units "too large")) }
    ∷ []

abbrev here : Address
here = record { slug = some (units "w"); identifier = some (units "W-1") }

abbrev accepted : Posted
accepted =
    answered (record { comment_id = units "c1"; mention_warnings = none; dispatched_run = none })

add_comment_lem_example :
    (any is_reset (add_comment here none [] (units "hi") two_files accepted) ≡ is_answered accepted)
    × (filter is_upload (add_comment here none [] (units "hi") two_files accepted)
        ≡ all_uploads none (units "c1") two_files)
    × (length (filter is_failure (add_comment here none [] (units "hi") two_files accepted)) ≡ 1)
add_comment_lem_example = add_comment_lem here none [] (units "hi") two_files accepted

abbrev after_failure : List Input
after_failure = rejects false false ∷ timer_fires ∷ responds true false ∷ []

run-set_fallback_example :
    let (s, calls) = run (subscribe true).0 after_failure in
    ((is_reading s.phase && fallback_after calls true) ≡ false)
    × ((Realtime.is_failure s.phase (rejects false false)
          && not s.stopped
          && not (fallback_after (calls ++ (step s (rejects false false)).1) true))
        ≡ false)
run-set_fallback_example = run-set_fallback true true after_failure (rejects false false)
