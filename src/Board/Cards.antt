-- ===== src/Board/Cards.antt =====
-- The columns and the buttons of the board.
use cron_agent_dashboard.Prelude.{
  ◌+◌, ◌≡◌, ◌≢◌, refl, Bool, true, false, List, [], ◌∷◌, length, All, arith,
}
use cron_agent_dashboard.Api.Records.{Issue, IssueStatus}
use cron_agent_dashboard.Board.{
  PendingAction, set_status, cancel_execution, card_actions, busy, counts,
}

-- An action that fits the issue: no status that the issue has, no end while a run is under way, and
-- no cancelled run where there is none.
abbrev pub Fits : Issue → PendingAction → Type 0
Fits issue (set_status _ IssueStatus.open_issue) = issue.status ≢ IssueStatus.open_issue
Fits issue (set_status _ IssueStatus.done) =
    (issue.status ≢ IssueStatus.done) × (busy issue ≡ false)
Fits issue (set_status _ IssueStatus.cancelled) =
    (issue.status ≢ IssueStatus.cancelled) × (busy issue ≡ false)
Fits issue (cancel_execution _) = busy issue ≡ true

-- Every button of a card that is not disabled asks for an action that fits the issue.
pub card_actions_fit :
    (issue : Issue) (disabled : Bool)
    → All (λ b. b.disabled ≡ false → Fits issue b.action) (card_actions issue disabled)
unfolding card_actions
card_actions_fit issue disabled = ground arith

-- The counts above the three columns add up to the number of issues.
pub counts_total :
    (issues : List Issue)
    → counts issues IssueStatus.open_issue
        + counts issues IssueStatus.done
        + counts issues IssueStatus.cancelled
      ≡ length issues
counts_total [] = refl
counts_total (issue ∷ issues) = ground (arith, counts_total issues)
