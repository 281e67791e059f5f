-- ===== src/Api/Fetch/Branches.antt =====
-- What a request sends, and how it ends on every kind of response.
use cron_agent_dashboard.Prelude.{
  not, ◌&&◌, sym, ◌∙◌, ℕ, ◌≡◌, refl, ◌≢◌, ◌↔◌, ◌⊎◌, Bool, true, false, Option, none, some, ◌++◌,
  Text, units, text_eq, text_eq_iff, is_empty, if◌then◌else◌, coalesce, arith, ◌<◌, ◌≤◌, Bool-cases,
  inl, inr, Option-cases,
}
use cron_agent_dashboard.Api.Session.{Store, Window, get_item, read_token}
use cron_agent_dashboard.Api.Session.Tokens.{get_item-set_item}
use cron_agent_dashboard.Api.Fetch.{
  Response, value, undefined_value, api_error, syntax_error, request_headers, read_response,
  ApiErrorBody, set_default,
}
use mathlib.Core.Option

abbrev content_type : Text
content_type = units "content-type"

abbrev authorization : Text
authorization = units "authorization"

abbrev bearer : Text → Text
bearer token = units "Bearer " ++ token

get_item-set_default :
    (k j v : Text) (h : Store)
    → get_item j (set_default k v h)
      ≡ (if text_eq k j then some (coalesce (get_item k h) v) else get_item j h)
get_item-set_default k j v h = elim (Option-cases (get_item k h)) [
  | inl e ↦ rw e (get_item-set_item k j v h)
  | inr (x, e) ↦ rw e (ground (arith, text_eq_iff k j))
]

names_differ : text_eq content_type authorization ≡ false
unfolding text_eq
names_differ = refl

distinct_names : (k : Text) → text_eq authorization k ≡ true → text_eq content_type k ≡ true → ⊥
distinct_names k p q =
    let same : content_type ≡ authorization =
      (text_eq_iff content_type k).0 q ∙ sym ((text_eq_iff authorization k).0 p) in
    cc (names_differ, (text_eq_iff content_type authorization).1 same)

-- The two ways to order the tests on a name, where at most one of them passes
drop_second {ℓ} :
    {A : Type ℓ} (a b : Bool) (x y z : A)
    → (if a then x else z) ≡ (if a then x else if b && false then y else z)
drop_second true b x y z = refl
drop_second false true x y z = refl
drop_second false false x y z = refl

swap_tests {ℓ} :
    {A : Type ℓ} (a b : Bool) (x y z : A)
    → (b ≡ true → a ≡ true → ⊥)
    → (if b then y else if a then x else z) ≡ (if a then x else if b && true then y else z)
swap_tests true true x y z h = absurd (h refl refl)
swap_tests true false x y z h = refl
swap_tests false true x y z h = refl
swap_tests false false x y z h = refl

authorization_kept :
    (v : Text) (given : Store)
    → get_item authorization (set_default content_type v given) ≡ get_item authorization given
authorization_kept v given =
    get_item-set_default content_type authorization v given ∙ rw names_differ

-- Every header of a request, by its name `k`: the content type is the caller's, or JSON; if the
-- stored token is not empty, the authorization is the caller's, or the token as a bearer token; any
-- other header is the caller's.
pub request_headers_lem :
    (w : Option Window) (given : Store) (k : Text)
    → get_item k (request_headers w given) ≡ (
        if text_eq content_type k
        then some (coalesce (get_item content_type given) (units "application/json"))
        else if text_eq authorization k && not (is_empty (read_token w))
        then some (coalesce (get_item authorization given) (bearer (read_token w)))
        else get_item k given)
unfolding request_headers
request_headers_lem w given k = elim (Bool-cases (is_empty (read_token w))) [
  | inl e ↦
      rw (e, request_headers)
        (get_item-set_default content_type k json given
          ∙ drop_second (text_eq content_type k) (text_eq authorization k) _ _ _)
  | inr n ↦
      rw (n, request_headers)
        (get_item-set_default authorization k (bearer (read_token w))
            (set_default content_type json given)
          ∙ rw (authorization_kept json given, get_item-set_default content_type k json given)
              (swap_tests (text_eq content_type k) (text_eq authorization k) _ _ _
                (distinct_names k)))
]
  where
    json : Text
    json = units "application/json"

module _ {J : Type 0} (as_error : J → ApiErrorBody) (r : Response J) where
  abbrev InRange : Type 0
  InRange = (200 ≤ r.status) × (r.status < 300)

  -- A response ends in the parsed body exactly if its status lies in 200..299, is not 204, and the
  -- body parses; in `undefined` exactly if the status is 204; in a syntax error exactly if the
  -- status lies in 200..299, is not 204, and the body does not parse.
  pub read_response_iff :
      (j : J)
      → ((read_response as_error r ≡ value j) ↔ (InRange × (r.status ≢ 204) × (r.json ≡ some j)))
        × ((read_response as_error r ≡ undefined_value) ↔ (r.status ≡ 204))
        × ((read_response as_error r ≡ syntax_error)
            ↔ (InRange × (r.status ≢ 204) × (r.json ≡ none)))
  unfolding read_response
  read_response_iff j = (ground arith, ground arith, ground arith)

  -- It ends in an `ApiError` exactly if the status lies outside 200..299. The error has that status,
  -- and the body where that parses.
  pub api_error_iff :
      (status : ℕ) (body : Option ApiErrorBody)
      → (read_response as_error r ≡ api_error status body) ↔ (
          ((r.status < 200) ⊎ (300 ≤ r.status))
          × (status ≡ r.status)
          × (body ≡ Option.map as_error r.json))
  unfolding read_response
  api_error_iff status body = ground arith
