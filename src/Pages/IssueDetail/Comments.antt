-- ===== src/Pages/IssueDetail/Comments.antt =====
-- What adding a comment comes to, however its uploads fare.
use mathlib.Core.List.{append-nil}
use cron_agent_dashboard.Prelude.{
  filter-append, ◌≡◌, refl, ap, ◌∙◌, inl, inr, Bool, true, false, Option, none, some, List, [], ◌∷◌,
  ◌++◌, map, arith, Text, units, filter, any, length, is_some, Option-cases,
}
use cron_agent_dashboard.Api.Records.{Issue, Run}
use cron_agent_dashboard.Api.Queries.{KeyPart, shown}
use cron_agent_dashboard.Toasts.{ToastTone}
use cron_agent_dashboard.Pages.{invalidates, notifies, is_error_notice}
use cron_agent_dashboard.Pages.IssueDetail.{
  Address, Action, uploads, resets_draft, causes, AttachedFile, Posted, answered, refused,
  CommentAnswer, upload_files, add_comment, comment_added, invalidate_issue, issue_id,
  invalidate_run_events, key,
}

abbrev pub is_upload : Action → Bool
is_upload (uploads path comment_id name) = true
is_upload _ = false

abbrev pub is_failure : Action → Bool
is_failure (causes e) = is_error_notice e
is_failure _ = false

abbrev pub is_reset : Action → Bool
is_reset resets_draft = true
is_reset _ = false

abbrev pub is_answered : Posted → Bool
is_answered (answered answer) = true
is_answered (refused thrown) = false

-- The uploads that a comment is to have
abbrev pub all_uploads : Option Issue → Text → List AttachedFile → List Action
all_uploads issue comment_id = map (λ f.
    uploads (units "/issues/" ++ (shown (issue_id issue) ++ units "/attachments")) comment_id
      f.name)

uploads_of_files :
    (issue : Option Issue) (comment_id : Text) (fs : List AttachedFile)
    → filter is_upload (upload_files (issue_id issue) comment_id fs)
      ≡ all_uploads issue comment_id fs
unfolding upload_files
uploads_of_files issue comment_id [] = refl
uploads_of_files issue comment_id (f ∷ fs) = elim (Option-cases f.failure) [
  | inl e ↦ ground (arith, e, uploads_of_files issue comment_id fs)
  | inr (t, e) ↦ ground (arith, e, uploads_of_files issue comment_id fs)
]

failures_of_files :
    (issue : Option Issue) (comment_id : Text) (fs : List AttachedFile)
    → length (filter is_failure (upload_files (issue_id issue) comment_id fs))
      ≡ length (filter (λ f. is_some f.failure) fs)
unfolding upload_files
failures_of_files issue comment_id [] = refl
failures_of_files issue comment_id (f ∷ fs) = elim (Option-cases f.failure) [
  | inl e ↦ ground (arith, e, failures_of_files issue comment_id fs)
  | inr (t, e) ↦ ground (arith, e, failures_of_files issue comment_id fs)
]

-- What holds neither of a reset, nor of reading again, nor of good news or a warning
module _ (p : Action → Bool) (resets : p resets_draft ≡ false)
    (reads : (k : List KeyPart) → p (causes (invalidates k)) ≡ false)
    (told : (t d : Text) → p (causes (notifies ToastTone.success t (some d))) ≡ false)
    (added : (t : Text) → p (causes (notifies ToastTone.success t none)) ≡ false)
    (warned : (t d : Text) → p (causes (notifies ToastTone.warning t (some d))) ≡ false) where
  no_run_events :
      (runs : List Run) (rest : List Action)
      → filter p (map causes (invalidate_run_events runs) ++ rest) ≡ filter p rest
  no_run_events [] rest = refl
  no_run_events (r ∷ rs) rest =
      ground (arith, reads (key (units "run-events") (some r.id)), no_run_events rs rest)

  no_warnings :
      (ws : List Text)
      → filter p (map (λ w. causes (notifies ToastTone.warning (units "멘션 경고") (some w))) ws) ≡ []
  no_warnings [] = refl
  no_warnings (w ∷ ws) = ground (arith, warned (units "멘션 경고") w, no_warnings ws)

  none_added :
      (a : Address) (issue : Option Issue) (runs : List Run) (answer : CommentAnswer)
      → filter p (comment_added a issue runs answer) ≡ []
  unfolding comment_added invalidate_issue
  none_added a issue runs answer = elim (Option-cases answer.dispatched_run) [
    | inl e ↦ simp (e, resets, reads, added, no_run_events, no_warnings)
    | inr (run, e) ↦ simp (e, resets, reads, told, no_run_events, no_warnings)
  ]

any_after :
    (p : Action → Bool) (xs ys : List Action)
    → p resets_draft ≡ true
    → any p (xs ++ resets_draft ∷ ys) ≡ true
any_after p [] ys h = ground (arith, h)
any_after p (x ∷ xs) ys h = ground (arith, any_after p xs ys h)

-- However its uploads fare, a comment that is accepted uploads every file once, in order, under the comment's
-- id, and shows one error for each upload that fails; one that is refused uploads nothing, shows one error
-- and leaves the draft as it is.
pub add_comment_lem :
    (a : Address) (issue : Option Issue) (runs : List Run) (content : Text)
    (files : List AttachedFile) (posted : Posted)
    → (any is_reset (add_comment a issue runs content files posted) ≡ is_answered posted)
      × (filter is_upload (add_comment a issue runs content files posted) ≡ elim posted [
        | answered answer ↦ all_uploads issue answer.comment_id files
        | refused thrown ↦ []
      ])
      × (length (filter is_failure (add_comment a issue runs content files posted)) ≡ elim posted [
        | answered answer ↦ length (filter (λ f. is_some f.failure) files)
        | refused thrown ↦ 1
      ])
unfolding add_comment
add_comment_lem a issue runs content files (refused thrown) = (refl, refl, refl)
add_comment_lem a issue runs content files (answered answer) =
    let path = upload_files (issue_id issue) answer.comment_id files in
    let added = comment_added a issue runs answer in
    (
      any_after is_reset path _ refl,
      (filter-append is_upload path added
          ∙ ap (◌++◌ (filter is_upload path)) (
              none_added is_upload refl (λ k. refl) (λ t d. refl) (λ t. refl) (λ t d. refl) a issue
                runs answer)
          ∙ append-nil (filter is_upload path)
          ∙ uploads_of_files issue answer.comment_id files),
      (ap length (
            filter-append is_failure path added
            ∙ ap (◌++◌ (filter is_failure path)) (
                none_added is_failure refl (λ k. refl) (λ t d. refl) (λ t. refl) (λ t d. refl) a
                  issue runs answer)
            ∙ append-nil (filter is_failure path))
          ∙ failures_of_files issue answer.comment_id files),
    )
