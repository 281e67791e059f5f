-- ===== src/Mentions/Tests.antt =====
-- The mention `@le` at the end of a comment.
use cron_agent_dashboard.Prelude.{
  ◌≡◌, ◌↔◌, refl, none, some, [], ◌∷◌, ◌++◌, Text, units, length, take, drop, arith,
}
use cron_agent_dashboard.Mentions.{MentionQuery, get_mention_query, insert_agent, at_sign}
use cron_agent_dashboard.Mentions.Query.{get_mention_query_iff, AtBoundary, IsTerm}
use cron_agent_dashboard.Mentions.Insert.{insert_agent_lem}

abbrev comment : Text
comment = units "hi @le!"

abbrev typed_query : MentionQuery
typed_query = record { start = 3; end = 6; term = units "le" }

typed : get_mention_query comment 6 ≡ some typed_query
unfolding get_mention_query
typed = refl

get_mention_query_iff_example : (get_mention_query comment 6 ≡ some typed_query) ↔ (
    (pre : Text) × (take 6 comment ≡ pre ++ at_sign ∷ typed_query.term)
    × AtBoundary pre
    × IsTerm typed_query.term
    × (typed_query.start ≡ length pre)
    × (typed_query.end ≡ 6))
get_mention_query_iff_example = get_mention_query_iff comment 6 typed_query

insert_agent_lem_example :
    let (next, after) = insert_agent comment typed_query (units "lead") in
    (take after next ≡ take 3 comment ++ at_sign ∷ (units "lead" ++ 32 ∷ []))
    × (drop after next ≡ drop 6 comment)
    × (get_mention_query next after ≡ none)
insert_agent_lem_example = insert_agent_lem comment 6 typed_query (units "lead") (omega arith) typed
