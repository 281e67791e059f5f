-- ===== src/Api/Queries/Tests.antt =====
-- Two hooks of one key.
use cron_agent_dashboard.Prelude.{◌≡◌, refl, none, some, List, [], Text, units}
use cron_agent_dashboard.Api.Queries.{comments_query}
use cron_agent_dashboard.Api.Queries.Cache.{Hook, comments, query_of, query_of_same_key}

-- an encoder for the tests, which writes nothing
abbrev no_search : List (Text × Text) → Text
no_search entries = []

abbrev live : Hook
live = comments (some (units "i1")) (some (units "running"))

abbrev idle : Hook
idle = comments (some (units "i1")) none

same_key : (query_of no_search live).key ≡ (query_of no_search idle).key
unfolding query_of comments_query
same_key = refl

query_of_same_key_example : (query_of no_search live).path ≡ (query_of no_search idle).path
query_of_same_key_example = query_of_same_key no_search live idle same_key
