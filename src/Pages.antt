-- ===== src/Pages.antt =====
-- What the pages of web/src/pages and their dialogs do to the world around them: the queries they read
-- again, the notices they show and where they go. An identifier within a template that is undefined is
-- written `undefined`.
pub mod AgentDetail
pub mod Attachments
pub mod Autopilot
pub mod Choices
pub mod Formats
pub mod Home
pub mod IssueDetail
pub mod Layout
pub mod Settings
pub mod Webhooks
use cron_agent_dashboard.Prelude.{false, true, ℕ, Bool, Option, List, Text, units}
use cron_agent_dashboard.Api.Queries.{KeyPart}
use cron_agent_dashboard.Toasts.{ToastTone}

pub data Effect : Type 0 where
  invalidates : List KeyPart → Effect
  refetches : Text → Effect
  notifies : ToastTone → Text → Option Text → Effect
  navigates : Text → Effect
  closes : Effect

-- An effect that shows an error
abbrev pub is_error_notice : Effect → Bool
is_error_notice (Effect.notifies ToastTone.error title description) = true
is_error_notice _ = false
