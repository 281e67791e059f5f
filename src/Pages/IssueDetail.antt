-- ===== src/Pages/IssueDetail.antt =====
-- web/src/pages/IssueDetailPage.tsx: the queries that are read again, the fallback of the event stream,
-- comments with attached files, the confirmed actions, and sub-issues. What a request comes to is an
-- argument.
pub mod Comments
pub mod Actions
pub mod Log
pub mod Realtime
mod Tests
use cron_agent_dashboard.Prelude.{
  ℕ, zero, suc, ◌+◌, ◌-◌, ◌*◌, ◌/◌, ◌%◌, ◌≤◌, ◌<◌, max, ◌≡◌, refl, sym, ap, ◌∙◌, subst, ◌≢◌, ◌↔◌,
  ◌⊎◌, inl, inr, Bool, true, false, not, ◌&&◌, ◌||◌, Option, none, some, List, [], ◌∷◌, ◌++◌, map,
  arith, Text, units, text_eq, text_eq_iff, text_eq_refl, trim, trim_start, trim_end, is_empty,
  truthy, text_or_empty, or_default, or_text, coalesce, filter, find, any, all, take, length,
  if◌then◌else◌, ltb, leb, ◌==◌, decimal, is_some, head?, Bool-cases, Option-cases, All, All-append,
  All-imp, trimmed, starts_with, sum_by,
}
use cron_agent_dashboard.Api.Records.{Issue, IssueStatus, Run, ExecutionStatus}
use cron_agent_dashboard.Api.Queries.{KeyPart, word, part, shown}
use cron_agent_dashboard.Toasts.{ToastTone}
use cron_agent_dashboard.Pages.{Effect, invalidates, notifies, refetches}

-- `slug` and `identifier` are those of the address.
pub record Address : Type 0 where
  pub slug : Option Text
  pub identifier : Option Text

abbrev pub issue_busy : Option Issue → Bool
issue_busy none = false
issue_busy (some issue) = elim issue.execution_status [
  | ExecutionStatus.queued ↦ true
  | ExecutionStatus.running ↦ true
  | _ ↦ false
]

abbrev pub issue_id : Option Issue → Option Text
issue_id none = none
issue_id (some issue) = some issue.id

abbrev pub key : Text → Option Text → List KeyPart
key name id = word name ∷ part id ∷ []

abbrev pub issue_key : Address → List KeyPart
issue_key a = word (units "issue") ∷ part a.slug ∷ part a.identifier ∷ []

abbrev pub invalidate_run_events : List Run → List Effect
invalidate_run_events = map (λ r. invalidates (key (units "run-events") (some r.id)))

unfoldable pub invalidate_issue : Address → Option Issue → List Run → List Effect
invalidate_issue a issue runs =
    invalidates (issue_key a)
    ∷ invalidates (key (units "comments") (issue_id issue))
    ∷ invalidates (key (units "runs") (issue_id issue))
    ∷ invalidates (key (units "issues") a.slug)
    ∷ invalidates (key (units "subissues") (issue_id issue))
    ∷ invalidate_run_events runs

-- What an event of the stream, and a round of the fallback, read again
abbrev pub invalidate_live : Address → Text → List Effect
invalidate_live a id =
    invalidates (key (units "comments") (some id))
    ∷ invalidates (key (units "runs") (some id))
    ∷ invalidates (issue_key a)
    ∷ []

unfoldable pub on_stream_event : Address → Text → Text → List Effect
on_stream_event a id event =
    if not (text_eq event (units "run_event")) then [] else invalidate_live a id

unfoldable pub poll_realtime_fallback : Address → Text → List Run → List Effect
poll_realtime_fallback a id runs = invalidate_live a id ++ invalidate_run_events runs

-- The fallback polls every three seconds while it is on and the issue is known.
unfoldable pub fallback_interval : Bool → Option Text → Option ℕ
fallback_interval realtime_fallback id =
    if not realtime_fallback || not (truthy id) then none else some 3000

pub record CommentAnswer : Type 0 where
  pub comment_id : Text
  pub mention_warnings : Option (List Text)
  pub dispatched_run : Option Run

-- What adding a comment does, in order: the requests, and the effects
pub data Action : Type 0 where
  posts_comment : Text → Text → Action
  uploads : Text → Text → Text → Action
  resets_draft : Action
  causes : Effect → Action

-- `errorMessage`: the message of an `Error`, or none where something else was thrown
abbrev pub thrown_message : Option Text → Text
thrown_message thrown = coalesce thrown (units "요청 처리 중 오류가 발생했습니다.")

-- A file by its name, and what its upload throws, if it fails
pub record AttachedFile : Type 0 where
  pub name : Text
  pub failure : Option (Option Text)

abbrev pub upload_failure : AttachedFile → List Action
upload_failure f = elim f.failure [
  | none ↦ []
  | some thrown ↦
      causes (
        notifies ToastTone.error (units "첨부 업로드 실패")
          (some (f.name ++ (units ": " ++ thrown_message thrown))))
      ∷ []
]

unfoldable pub upload_files : Option Text → Text → List AttachedFile → List Action
upload_files id comment_id [] = []
upload_files id comment_id (f ∷ fs) =
    uploads (units "/issues/" ++ (shown id ++ units "/attachments")) comment_id f.name
      ∷ upload_failure f
    ++ upload_files id comment_id fs

abbrev pub dispatched_notice : Option Run → Effect
dispatched_notice none = notifies ToastTone.success (units "댓글을 등록했습니다.") none
dispatched_notice (some run) =
    notifies ToastTone.success (units "멘션 실행을 큐에 등록했습니다.") (some (units "run " ++ take 8 run.id))

-- `onSuccess` of `addComment`
unfoldable pub comment_added : Address → Option Issue → List Run → CommentAnswer → List Action
unfolding invalidate_issue
comment_added a issue runs answer =
    resets_draft ∷ map causes (invalidate_issue a issue runs)
    ++ (causes (invalidates (key (units "attachments") (issue_id issue)))
        ∷ causes (dispatched_notice answer.dispatched_run)
        ∷ map (λ w. causes (notifies ToastTone.warning (units "멘션 경고") (some w)))
            (coalesce answer.mention_warnings []))

-- What posting the comment comes to: an answer, or what was thrown
pub data Posted : Type 0 where
  answered : CommentAnswer → Posted
  refused : Option Text → Posted

unfoldable pub add_comment :
    Address → Option Issue → List Run → Text → List AttachedFile → Posted → List Action
unfolding upload_files comment_added
add_comment a issue runs content files (answered answer) =
    posts_comment (units "/issues/" ++ (shown (issue_id issue) ++ units "/comments")) content
      ∷ upload_files (issue_id issue) answer.comment_id files
    ++ comment_added a issue runs answer
add_comment a issue runs content files (refused thrown) =
    posts_comment (units "/issues/" ++ (shown (issue_id issue) ++ units "/comments")) content
    ∷ causes (notifies ToastTone.error (units "댓글 등록 실패") (some (thrown_message thrown)))
    ∷ []

-- Whether a submitted comment is sent, and whether a sub-issue is
unfoldable pub comment_submits : Option Issue → Text → Bool
comment_submits issue content = is_some issue && not (is_empty (trim content))

pub record SubIssueForm : Type 0 where
  pub title : Text
  pub body : Text
  pub assignee_agent_id : Text

unfoldable pub sub_issue_submits : Option Issue → SubIssueForm → Bool
sub_issue_submits issue form = is_some issue && not (is_empty (trim form.title))

unfoldable pub refresh_issue : Option Issue → List Run → List Effect
refresh_issue issue runs =
    refetches (units "issue")
    ∷ refetches (units "agents")
    ∷ refetches (units "subIssues")
    ∷ elim issue [
      | none ↦ []
      | some i ↦
          if is_empty i.id
          then []
          else refetches (units "comments") ∷ refetches (units "runs") ∷ invalidate_run_events runs
    ]
