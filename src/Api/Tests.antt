-- ===== src/Api/Tests.antt =====
-- The client's stores, headers, responses and streams at concrete values.
use cron_agent_dashboard.Prelude.{
  ℕ, ◌≡◌, ◌↔◌, ◌≤◌, ◌<◌, ◌≢◌, ◌⊎◌, refl, false, not, ◌&&◌, none, some, List, [], ◌∷◌, ◌++◌, map,
  Text, units, text_eq, trim, is_empty, trim_start, coalesce, if◌then◌else◌, arith,
}
use cron_agent_dashboard.Api.Session.{Window, get_item, read_token, set_token, token_storage_key}
use cron_agent_dashboard.Api.Session.Tokens.{entries-set_token, entries}
use cron_agent_dashboard.Api.Fetch.{
  Response, value, undefined_value, api_error, syntax_error, ApiErrorBody, request_headers,
  read_response,
}
use cron_agent_dashboard.Api.Fetch.Branches.{request_headers_lem, read_response_iff, api_error_iff}
use cron_agent_dashboard.Api.Stream.{Frame, write_frames, read_stream, flush, cr, lf}
use cron_agent_dashboard.Api.Stream.Lines.{ends_cr}
use cron_agent_dashboard.Api.Stream.Chunks.{read_stream-eq-flush, concat}
use cron_agent_dashboard.Api.Stream.Frames.{read_stream-write_frames, IsFrame, frame_event}
use cron_agent_dashboard.Api.Stream.SplitEnds.{read_stream-split_crlf}
use mathlib.Core.Option

abbrev window : Window
window = record {
  session_storage = (token_storage_key, units "old") ∷ [];
  local_storage = (units "theme", units "dark") ∷ [];
}

abbrev token : Text
token = units " t1 "

entries-set_token_example : entries (units "theme") (set_token token false (some window)) ≡ (
    if text_eq token_storage_key (units "theme")
    then (none, some (trim token))
    else entries (units "theme") (some window))
entries-set_token_example = entries-set_token token false window (units "theme")

request_headers_lem_example :
    get_item (units "authorization") (request_headers (some window) []) ≡ (
      if text_eq (units "content-type") (units "authorization")
      then some (coalesce (get_item (units "content-type") []) (units "application/json"))
      else if text_eq (units "authorization") (units "authorization")
          && not (is_empty (read_token (some window)))
      then some (
          coalesce
            (get_item (units "authorization") [])
            (units "Bearer " ++ read_token (some window)))
      else get_item (units "authorization") [])
request_headers_lem_example = request_headers_lem (some window) [] (units "authorization")

-- a parser for the tests: the body is a number
abbrev no_detail : ℕ → ApiErrorBody
no_detail n = record { message = none; code = none; error = none }

abbrev missing : Response ℕ
missing = record { status = 404; json = some 7 }

abbrev found : Response ℕ
found = record { status = 200; json = some 7 }

read_response_iff_example :
    ((read_response no_detail found ≡ value 7) ↔ (
      ((200 ≤ found.status) × (found.status < 300)) × (found.status ≢ 204) × (found.json ≡ some 7)))
    × ((read_response no_detail found ≡ undefined_value) ↔ (found.status ≡ 204))
    × ((read_response no_detail found ≡ syntax_error) ↔ (
        ((200 ≤ found.status) × (found.status < 300)) × (found.status ≢ 204) × (found.json ≡ none)))
read_response_iff_example = read_response_iff no_detail found 7

api_error_iff_example : (read_response no_detail missing ≡ api_error 404 (some (no_detail 7))) ↔ (
    ((missing.status < 200) ⊎ (300 ≤ missing.status))
    × (404 ≡ missing.status)
    × (some (no_detail 7) ≡ Option.map no_detail missing.json))
api_error_iff_example = api_error_iff no_detail missing 404 (some (no_detail 7))

abbrev two_chunks : List Text
two_chunks = (units "data: a" ++ lf ∷ []) ∷ (lf ∷ units "data: b") ∷ []

read_stream-eq-flush_example :
    read_stream [] two_chunks (lf ∷ lf ∷ []) ≡ flush (concat two_chunks ++ lf ∷ lf ∷ [])
unfolding ends_cr
read_stream-eq-flush_example = read_stream-eq-flush two_chunks (lf ∷ lf ∷ []) (refl, (refl, tt))

abbrev frame : Frame
frame = record { name = units "log"; lines = units "a" ∷ units "b" ∷ [] }

frame-IsFrame : IsFrame frame
unfolding trim_start
frame-IsFrame = record {
  name-IsLine = omega arith;
  name_starts = refl;
  lines-IsLine = (omega arith, (omega arith, tt));
  has_lines = λ e. cc;
}

read_stream-write_frames_example :
    read_stream [] [] (write_frames (frame ∷ [])) ≡ map frame_event (frame ∷ [])
read_stream-write_frames_example =
    read_stream-write_frames (frame ∷ []) [] (write_frames (frame ∷ [])) (frame-IsFrame, tt) refl

read_stream-split_crlf_example :
    (read_stream [] ((units "event: log" ++ cr ∷ lf ∷ units "data: a") ∷ []) []
      ≡ flush (units "event: log" ++ (lf ∷ units "data: a") ++ []))
    × (read_stream [] ((units "event: log" ++ cr ∷ []) ∷ (lf ∷ units "data: a") ∷ []) []
        ≡ flush (units "event: log" ++ (lf ∷ lf ∷ units "data: a") ++ []))
read_stream-split_crlf_example =
    read_stream-split_crlf (units "event: log") (units "data: a") [] (omega arith) (omega arith)
