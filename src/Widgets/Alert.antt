-- ===== src/Widgets/Alert.antt =====
-- web/src/components/MutationErrorAlert.tsx: the message for whatever a mutation throws.
use cron_agent_dashboard.Prelude.{
  ℕ, ◌||◌, Option, none, some, ◌++◌, Text, units, trim, is_empty, coalesce, or_default,
  text_or_empty, truthy, if◌then◌else◌, decimal,
}
use cron_agent_dashboard.Api.Fetch.{ApiErrorBody, ErrorDetail, api_error_message}
use cron_agent_dashboard.Mentions.{includes}

-- What a mutation may throw. In an object, `error` and the fields are read as texts where they are.
pub data Nested : Type 0 where
  nothing : Nested
  words : Text → Nested
  object : Option Text → Option Text → Nested

pub data Thrown : Type 0 where
  api_thrown : ℕ → Option ApiErrorBody → Thrown
  text_thrown : Text → Thrown
  error_thrown : Text → Thrown
  record_thrown : Nested → Option Text → Option Text → Thrown
  other_thrown : Thrown

abbrev pub default_error_message : Text
default_error_message = units "요청 처리 중 오류가 발생했습니다."

-- `text.trim() || DEFAULT_ERROR_MESSAGE`
abbrev pub trimmed_or_default : Text → Text
trimmed_or_default text = or_default (some (trim text)) default_error_message

unfoldable pub with_code : Text → Option Text → Text
unfolding trim includes
with_code message code =
    let trimmed_message = trimmed_or_default message in
    let c = text_or_empty code in
    if is_empty c || includes trimmed_message c
    then trimmed_message
    else trimmed_message ++ (units " (" ++ (c ++ units ")"))

abbrev pub read_string : Option Text → Option Text
read_string none = none
read_string (some t) = if is_empty (trim t) then none else some (trim t)

-- `a ?? b`
abbrev pub or_else : Option Text → Option Text → Option Text
or_else none b = b
or_else (some a) b = some a

abbrev detail_of : (ErrorDetail → Option Text) → Option ErrorDetail → Option Text
detail_of f none = none
detail_of f (some e) = f e

abbrev body_message : Option ApiErrorBody → Option Text
body_message none = none
body_message (some body) = or_else (detail_of (λ e. e.message) body.error) body.message

abbrev body_code : Option ApiErrorBody → Option Text
body_code none = none
body_code (some body) = or_else (detail_of (λ e. e.code) body.error) body.code

abbrev pub api_message : ℕ → Option ApiErrorBody → Text
api_message status body =
    or_default (some (coalesce (body_message body) (api_error_message status body)))
      default_error_message

-- `code ?? (bodyMessage ? … : undefined)`
abbrev pub api_suffix : ℕ → Option ApiErrorBody → Option Text
api_suffix status body =
    or_else (body_code body)
      (if truthy (body_message body) then some (units "HTTP " ++ decimal status) else none)

unfoldable pub format_api_error : ℕ → Option ApiErrorBody → Text
unfolding with_code decimal
format_api_error status body = with_code (api_message status body) (api_suffix status body)

abbrev pub nested_message : Nested → Option Text
nested_message nothing = none
nested_message (words t) = read_string (some t)
nested_message (object message code) = read_string message

abbrev pub nested_code : Nested → Option Text
nested_code nothing = none
nested_code (words t) = none
nested_code (object message code) = read_string code

abbrev pub record_message : Option Text → Option Text → Text
record_message none none = default_error_message
record_message none (some code) = default_error_message ++ (units " (" ++ (code ++ units ")"))
record_message (some message) code = with_code message code

unfoldable pub get_mutation_error_message : Thrown → Text
unfolding format_api_error with_code trim
get_mutation_error_message (api_thrown status body) = format_api_error status body
get_mutation_error_message (text_thrown t) = trimmed_or_default t
get_mutation_error_message (error_thrown message) = trimmed_or_default message
get_mutation_error_message (record_thrown nested message code) =
    record_message (or_else (nested_message nested) (read_string message))
      (or_else (read_string code) (nested_code nested))
get_mutation_error_message other_thrown = default_error_message
