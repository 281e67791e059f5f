-- ===== src/Mentions.antt =====
-- web/src/components/MentionAutocomplete.tsx: finding the mention that is being typed, the agents
-- that are suggested, the keys, and the text with the chosen agent put in. The host's
-- `toLocaleLowerCase` is an argument.
pub mod Query
pub mod Insert
pub mod Keys
mod Tests
use cron_agent_dashboard.Prelude.{
  ℕ, ◌+◌, ◌-◌, ◌%◌, Bool, true, false, not, ◌&&◌, ◌||◌, Option, none, some, List, [], ◌∷◌, ◌++◌,
  Text, units, is_space, if◌then◌else◌, ◌==◌, length, take, drop, all, filter, get_elem?, head?,
  is_empty, starts_with,
}
use cron_agent_dashboard.Api.Records.{Agent}

pub record MentionQuery : Type 0 where
  pub start : ℕ
  pub end : ℕ
  pub term : Text

abbrev pub at_sign : ℕ
at_sign = 64

-- `[^@\s]`
abbrev pub is_term_char : ℕ → Bool
is_term_char c = not (c == at_sign || is_space c)

-- `@([^@\s]*)$` from here on
pub match_term : Text → Option Text
match_term [] = none
match_term (c ∷ s) = if (c == at_sign) && all is_term_char s then some s else none

-- `\s@([^@\s]*)$`, tried at each place
pub scan_term : Text → Option Text
unfolding match_term
scan_term [] = none
scan_term (c ∷ s) =
    let later = scan_term s in
    if is_space c then elim (match_term s) [ some term ↦ some term | none ↦ later ] else later

-- `/(^|\s)@([^@\s]*)$/.exec(s)`, the second group
pub exec_mention : Text → Option Text
unfolding match_term scan_term
exec_mention s = elim (match_term s) [ some term ↦ some term | none ↦ scan_term s ]

abbrev pub query_at : ℕ → Text → Text → MentionQuery
query_at cursor before term = record {
  start = length before - length term - 1;
  end = cursor;
  term = term;
}

abbrev pub query_of : ℕ → Text → Option Text → Option MentionQuery
query_of cursor before none = none
query_of cursor before (some term) = some (query_at cursor before term)

-- The source adds 0 to `start` either way.
unfoldable pub get_mention_query : Text → ℕ → Option MentionQuery
unfolding exec_mention is_space
get_mention_query value cursor =
    let before = take cursor value in query_of cursor before (exec_mention before)

-- `insertAgent`: the new text and the cursor in it
unfoldable pub insert_agent : Text → MentionQuery → Text → Text × ℕ
insert_agent value query name = (
  take query.start value ++ at_sign ∷ (name ++ 32 ∷ drop query.end value),
  query.start + length name + 2,
)

-- `s.includes(part)`
unfoldable pub includes : Text → Text → Bool
includes [] part = starts_with part []
includes (c ∷ s) part = starts_with part (c ∷ s) || includes s part

abbrev pub max_suggestions : ℕ
max_suggestions = 6

unfoldable pub suggestions : (Text → Text) → List Agent → Option MentionQuery → List Agent
unfolding includes starts_with
suggestions lower agents none = []
suggestions lower agents (some query) =
    let term = lower query.term in
    take max_suggestions
      (filter (λ agent. is_empty term || includes (lower agent.name) term) agents)

-- The highlighted entry among `count` suggestions after a key. The source takes
-- `(index - 1 + count) % count`; `count` is not 0 where a key is handled.
unfoldable pub arrow_down : ℕ → ℕ → ℕ
arrow_down count index = (index + 1) % count

unfoldable pub arrow_up : ℕ → ℕ → ℕ
arrow_up count index = (index + count - 1) % count

-- `suggestions[highlighted] ?? suggestions[0]`
unfoldable pub chosen : List Agent → ℕ → Option Agent
chosen agents highlighted = elim (get_elem? agents highlighted) [
  | some agent ↦ some agent
  | none ↦ head? agents
]
