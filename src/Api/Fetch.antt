-- ===== src/Api/Fetch.antt =====
-- web/src/api/client.ts: `request`, its wrappers in `apiClient`, and `ApiError`. `fetch` and the
-- parser behind `response.json()` belong to the host: a response carries what `json()` gives, none
-- where it throws. Header names are lower-case, as `Headers` keeps them.
pub mod Branches
use cron_agent_dashboard.Prelude.{
  ℕ, Bool, true, false, ◌&&◌, not, Option, none, some, List, [], ◌∷◌, ◌++◌, Text, units, is_empty,
  if◌then◌else◌, ltb, leb, ◌==◌, coalesce, decimal, is_some,
}
use cron_agent_dashboard.Api.Session.{Store, Window, get_item, set_item, read_token}

pub record ErrorDetail : Type 0 where
  pub message : Option Text
  pub code : Option Text

pub record ApiErrorBody : Type 0 where
  pub message : Option Text
  pub code : Option Text
  pub error : Option ErrorDetail

pub record Response (J : Type 0) : Type 0 where
  pub status : ℕ
  pub json : Option J

pub record Init : Type 0 where
  pub method : Text
  pub headers : Store
  pub body : Option Text

pub record Request : Type 0 where
  pub url : Text
  pub method : Text
  pub headers : Store
  pub body : Option Text

-- How a call of `request` ends: with a value, with `undefined`, or by a thrown error
pub data Outcome (J : Type 0) : Type 0 where
  value : J → Outcome J
  undefined_value : Outcome J
  api_error : ℕ → Option ApiErrorBody → Outcome J
  syntax_error : Outcome J
  network_error : Outcome J

-- `response.ok`
abbrev pub response_ok : ℕ → Bool
response_ok status = leb 200 status && ltb status 300

abbrev error_message_of : Option ErrorDetail → Option Text
error_message_of none = none
error_message_of (some e) = e.message

-- the message of `new ApiError(status, body)`
pub api_error_message : ℕ → Option ApiErrorBody → Text
api_error_message status none = units "API 요청 실패 (" ++ (decimal status ++ units ")")
api_error_message status (some body) =
    coalesce (error_message_of body.error)
      (coalesce body.message (units "API 요청 실패 (" ++ (decimal status ++ units ")")))

abbrev pub set_default : Text → Text → Store → Store
set_default k v headers = if is_some (get_item k headers) then headers else set_item k v headers

-- The headers that `request` sends
unfoldable pub request_headers : Option Window → Store → Store
unfolding read_token set_item
request_headers w given =
    let headers = set_default (units "content-type") (units "application/json") given in
    let token = read_token w in
    if is_empty token
    then headers
    else set_default (units "authorization") (units "Bearer " ++ token) headers

module _ {J : Type 0} (as_error : J → ApiErrorBody) where
  -- The parse of an error's body: null where it fails
  abbrev error_body : Option J → Option ApiErrorBody
  error_body none = none
  error_body (some j) = some (as_error j)

  abbrev parsed : Option J → Outcome J
  parsed none = syntax_error
  parsed (some j) = value j

  unfoldable pub read_response : Response J → Outcome J
  read_response r =
      if not (response_ok r.status)
      then api_error r.status (error_body r.json)
      else if r.status == 204
      then undefined_value
      else parsed r.json

  -- `fetch` gives a response, or none if it rejects.
  unfoldable pub request :
      (Request → Option (Response J)) → Text → Option Window → Text → Init → Outcome J
  unfolding request_headers read_response
  request fetch base_url w path init =
      elim (fetch (record {
        url = base_url ++ path;
        method = init.method;
        headers = request_headers w init.headers;
        body = init.body;
      })) [ none ↦ network_error | some r ↦ read_response r ]

  -- `apiClient.get`, `post`, `put`, `delete`; the body is the JSON text, none for `undefined`
  abbrev plain : Text → Option Text → Init
  plain method body = record { method = method; headers = []; body = body }

  unfoldable pub get : (Request → Option (Response J)) → Text → Option Window → Text → Outcome J
  unfolding request
  get fetch base_url w path = request fetch base_url w path (plain (units "GET") none)

  unfoldable pub post :
      (Request → Option (Response J)) → Text → Option Window → Text → Option Text → Outcome J
  unfolding request
  post fetch base_url w path body = request fetch base_url w path (plain (units "POST") body)

  unfoldable pub put :
      (Request → Option (Response J)) → Text → Option Window → Text → Option Text → Outcome J
  unfolding request
  put fetch base_url w path body = request fetch base_url w path (plain (units "PUT") body)

  unfoldable pub delete : (Request → Option (Response J)) → Text → Option Window → Text → Outcome J
  unfolding request
  delete fetch base_url w path = request fetch base_url w path (plain (units "DELETE") none)

  -- `postMultipart`: no content type, so that the host adds the boundary; `form` stands for the body
  unfoldable pub post_multipart :
      (Request → Option (Response J)) → Text → Option Window → Text → Text → Outcome J
  unfolding read_response read_token set_item
  post_multipart fetch base_url w path form =
      let token = read_token w in
      let headers : Store =
        if is_empty token
        then []
        else set_item (units "authorization") (units "Bearer " ++ token) [] in
      elim (fetch (record {
        url = base_url ++ path;
        method = units "POST";
        headers = headers;
        body = some form;
      })) [ none ↦ network_error | some r ↦ read_response r ]
