-- ===== src/Widgets/Messages.antt =====
-- The badge and the error message.
use cron_agent_dashboard.Prelude.{
  ◌≡◌, ◌≢◌, ◌↔◌, refl, Bool, true, false, Option, none, some, List, [], ◌∷◌, ◌++◌, Text, trim, find,
  or_default, if◌then◌else◌, Bool-cases, inl, inr,
}
use cron_agent_dashboard.Api.Responses.{AvailableRuntime}
use cron_agent_dashboard.Labels.{label_of}
use cron_agent_dashboard.Widgets.{ok, classify_runtime, classify_info, runtime_named, unsupported}
use cron_agent_dashboard.Widgets.Alert.{
  Thrown, api_thrown, text_thrown, error_thrown, record_thrown, other_thrown,
  get_mutation_error_message, format_api_error, with_code, api_message, api_suffix, or_else,
  read_string, nested_message, nested_code, trimmed_or_default, record_message,
  default_error_message,
}

classify_info_ok :
    (lower : Text → Text) (runtime : Text) (found : Option AvailableRuntime)
    → ((classify_info lower runtime found).variant ≡ ok)
      ↔ ((info : AvailableRuntime) × (found ≡ some info) × (unsupported info ≡ false))
unfolding label_of
classify_info_ok lower runtime none = (λ e. cc, λ (info, e, p). cc)
classify_info_ok lower runtime (some i) = elim (Bool-cases (unsupported i)) [
  | inl e ↦ rw e (λ p. cc, λ (info, q, n). cc)
  | inr e ↦ rw e (λ p. (i, refl, e), λ (info, q, n). refl)
]

-- A runtime is recommended exactly if the first listed one of its name, case and outer space
-- aside, is not reported as unsupported.
pub classify_runtime_ok :
    (lower : Text → Text) (runtime : Text) (runtimes : List AvailableRuntime)
    → ((classify_runtime lower runtime (some runtimes)).variant ≡ ok) ↔ (
        (info : AvailableRuntime) × (find (runtime_named lower runtime) runtimes ≡ some info)
        × (unsupported info ≡ false))
unfolding classify_runtime
classify_runtime_ok lower runtime runtimes =
    classify_info_ok lower runtime (find (runtime_named lower runtime) runtimes)

append_nonempty : (s t : Text) → s ≢ [] → (s ++ t) ≢ []
append_nonempty [] t h e = h refl
append_nonempty (c ∷ s) t h e = cc

or_default_nonempty : (o : Option Text) → or_default o default_error_message ≢ []
or_default_nonempty none e = cc
or_default_nonempty (some []) e = cc
or_default_nonempty (some (c ∷ s)) e = cc

with_code_nonempty : (message : Text) (code : Option Text) → with_code message code ≢ []
unfolding with_code
with_code_nonempty message code =
    let whole = or_default_nonempty (some (trim message)) in
    pick (trimmed_or_default message) _ _ whole
  where
    pick : (s t : Text) (b : Bool) → s ≢ [] → (if b then s else s ++ t) ≢ []
    pick s t true h = h
    pick s t false h = append_nonempty s t h

-- Whatever is thrown, the alert has a message that is not empty.
pub get_mutation_error_message_nonempty : (e : Thrown) → get_mutation_error_message e ≢ []
unfolding get_mutation_error_message format_api_error
get_mutation_error_message_nonempty (api_thrown status body) =
    with_code_nonempty (api_message status body) (api_suffix status body)
get_mutation_error_message_nonempty (text_thrown t) = or_default_nonempty (some (trim t))
get_mutation_error_message_nonempty (error_thrown m) = or_default_nonempty (some (trim m))
get_mutation_error_message_nonempty (record_thrown nested message code) =
    record_nonempty (or_else (nested_message nested) (read_string message))
      (or_else (read_string code) (nested_code nested))
  where
    record_nonempty : (message code : Option Text) → record_message message code ≢ []
    record_nonempty none none = λ e. cc
    record_nonempty none (some code) = λ e. cc
    record_nonempty (some message) code = with_code_nonempty message code
get_mutation_error_message_nonempty other_thrown = λ e. cc
