-- ===== src/Pages/Attachments.antt =====
-- web/src/components/IssueAttachmentsPanel.tsx: the file that is picked, its upload, and the attachments by
-- comment.
pub mod Groups
use cron_agent_dashboard.Prelude.{
  ℕ, zero, suc, ◌+◌, ◌-◌, ◌*◌, ◌/◌, ◌%◌, ◌≤◌, ◌<◌, max, ◌≡◌, refl, sym, ap, ◌∙◌, subst, ◌≢◌, ◌↔◌,
  ◌⊎◌, inl, inr, Bool, true, false, not, ◌&&◌, ◌||◌, Option, none, some, List, [], ◌∷◌, ◌++◌, map,
  arith, Text, units, text_eq, text_eq_iff, text_eq_refl, trim, trim_start, trim_end, is_empty,
  truthy, text_or_empty, or_default, or_text, coalesce, filter, find, any, all, take, length,
  if◌then◌else◌, ltb, leb, ◌==◌, decimal, is_some, head?, Bool-cases, Option-cases, All, All-append,
  All-imp, trimmed, starts_with, sum_by,
}
use cron_agent_dashboard.Api.Responses.{Attachment}
use cron_agent_dashboard.Api.Queries.{KeyPart, word}
use cron_agent_dashboard.Pages.{Effect, invalidates}
use cron_agent_dashboard.Pages.Formats.{format_bytes}

abbrev pub max_bytes : ℕ
max_bytes = 10 * 1024 * 1024

pub record File : Type 0 where
  pub name : Text
  pub size : ℕ

pub record UploadPanel : Type 0 where
  pub selected : Option File
  pub error : Text

abbrev too_large : (ℕ → ℕ → ℕ → Text) → Text
too_large to_fixed = units "파일은 최대 " ++ (format_bytes to_fixed max_bytes ++ units "까지 업로드할 수 있습니다.")

unfoldable pub pick_file : (ℕ → ℕ → ℕ → Text) → Option File → UploadPanel → UploadPanel
pick_file to_fixed none panel = record { selected = none; error = [] }
pick_file to_fixed (some file) panel =
    if ltb max_bytes file.size
    then record { selected = none; error = too_large to_fixed }
    else record { selected = some file; error = [] }

unfoldable pub file_uploaded : Text → UploadPanel → UploadPanel × List Effect
file_uploaded issue_id panel = (
  record { selected = none; error = [] },
  invalidates (word (units "attachments") ∷ word issue_id ∷ []) ∷ [],
)

-- The message of the `Error` that was thrown, or none for anything else
unfoldable pub upload_failed : Option Text → UploadPanel → UploadPanel
upload_failed thrown panel = record panel { error = coalesce thrown (units "업로드 실패") }

unfoldable pub upload_path : Text → Text
upload_path issue_id = units "/issues/" ++ (issue_id ++ units "/attachments")

abbrev pub Group : Type 0
Group = Text × List Attachment

-- `byComment.set(id, arr)` with the attachment at the end of `arr`
unfoldable pub put_attachment : Text → Attachment → List Group → List Group
put_attachment id a [] = (id, a ∷ []) ∷ []
put_attachment id a ((key, rows) ∷ groups) =
    if text_eq key id
    then (key, rows ++ a ∷ []) ∷ groups
    else (key, rows) ∷ put_attachment id a groups

abbrev pub put_if_linked : Attachment → List Group → List Group
put_if_linked a groups =
    if truthy a.comment_id then put_attachment (text_or_empty a.comment_id) a groups else groups

unfoldable pub group_attachments : List Group → List Attachment → List Group
unfolding put_attachment
group_attachments groups [] = groups
group_attachments groups (a ∷ rest) = group_attachments (put_if_linked a groups) rest

unfoldable pub issue_attachments : List Attachment → List Attachment
issue_attachments = filter (λ a. not (truthy a.comment_id))
