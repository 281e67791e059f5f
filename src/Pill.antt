-- ===== src/Pill.antt =====
-- web/src/components/StatusPill.tsx: the label and the classes of a status. `toLowerCase` is an
-- argument. The label tables are object literals, of which only the own entries are modelled.
pub mod Classes
mod Tests
use cron_agent_dashboard.Prelude.{
  ℕ, Bool, true, false, not, ◌&&◌, ◌||◌, Option, none, some, List, [], ◌∷◌, ◌++◌, map, Text, units,
  is_space, trim, is_empty, if◌then◌else◌, leb, ◌==◌, coalesce,
}
use cron_agent_dashboard.Labels.{Labels, label_of}

pub data StatusPillKind : Type 0 where
  issue execution run rule runtime : StatusPillKind

abbrev pub status_labels : StatusPillKind → Labels
status_labels issue =
    (units "open", units "열림") ∷ (units "done", units "완료") ∷ (units "cancelled", units "취소") ∷ []
status_labels execution =
    (units "idle", units "대기 없음")
    ∷ (units "queued", units "대기")
    ∷ (units "running", units "실행 중")
    ∷ (units "done", units "완료")
    ∷ (units "failed", units "실패")
    ∷ (units "cancelled", units "취소")
    ∷ []
status_labels run =
    (units "queued", units "대기")
    ∷ (units "running", units "실행 중")
    ∷ (units "done", units "완료")
    ∷ (units "failed", units "실패")
    ∷ (units "cancelled", units "취소")
    ∷ []
status_labels rule =
    (units "enabled", units "활성")
    ∷ (units "disabled", units "비활성")
    ∷ (units "active", units "활성")
    ∷ (units "inactive", units "비활성")
    ∷ (units "on", units "켜짐")
    ∷ (units "off", units "꺼짐")
    ∷ []
status_labels runtime =
    (units "available", units "사용 가능")
    ∷ (units "unavailable", units "사용 불가")
    ∷ (units "ready", units "준비됨")
    ∷ (units "ok", units "정상")
    ∷ (units "error", units "오류")
    ∷ (units "missing", units "없음")
    ∷ (units "unknown", units "알 수 없음")
    ∷ []

abbrev pub dash : ℕ
dash = 45

abbrev pub starts_in : (ℕ → Bool) → Text → Bool
starts_in p [] = false
starts_in p (c ∷ s) = p c

-- `value.replace(/[...]+/g, x)`: each run of characters in the class becomes one `x`.
unfoldable pub replace_runs : (ℕ → Bool) → ℕ → Text → Text
replace_runs p x [] = []
replace_runs p x (c ∷ s) =
    let rest = replace_runs p x s in
    if p c then if starts_in p s then rest else x ∷ rest else c ∷ rest

-- `[\s_]`
abbrev pub space_or_underscore : ℕ → Bool
space_or_underscore c = is_space c || c == 95

unfoldable pub normalize_status : (Text → Text) → Text → Text
unfolding replace_runs is_space trim
normalize_status lower status = replace_runs space_or_underscore dash (lower (trim status))

-- `[a-z0-9-]`
abbrev pub is_safe : ℕ → Bool
is_safe c = (leb 97 c && leb c 122) || (leb 48 c && leb c 57) || c == dash

abbrev pub safe_unit : ℕ → ℕ
safe_unit c = if is_safe c then c else dash

-- `value.replace(/^-|-$/g, '')`: a dash at the start goes, and one at the end.
abbrev pub drop_first : Text → Text
drop_first [] = []
drop_first (c ∷ s) = if c == dash then s else c ∷ s

unfoldable pub drop_last : Text → Text
drop_last [] = []
drop_last (c ∷ []) = if c == dash then [] else c ∷ []
drop_last (c ∷ d ∷ s) = c ∷ drop_last (d ∷ s)

unfoldable pub collapsed : Text → Text
unfolding replace_runs
collapsed value = replace_runs (λ c. c == dash) dash (map safe_unit value)

abbrev pub or_unknown : Text → Text
or_unknown [] = units "unknown"
or_unknown (c ∷ s) = c ∷ s

unfoldable pub safe_class_segment : Text → Text
unfolding collapsed drop_last
safe_class_segment value = or_unknown (drop_last (drop_first (collapsed value)))

unfoldable pub fallback_label : Text → Text
unfolding trim replace_runs
fallback_label status =
    let trimmed_status = trim status in
    if is_empty trimmed_status
    then units "알 수 없음"
    else replace_runs (λ c. space_or_underscore c || c == dash) 32 trimmed_status

unfoldable pub get_status_pill_label : (Text → Text) → StatusPillKind → Text → Text
unfolding label_of normalize_status fallback_label
get_status_pill_label lower kind status =
    coalesce (label_of (status_labels kind) (normalize_status lower status)) (fallback_label status)

abbrev pub kind_text : StatusPillKind → Text
kind_text issue = units "issue"
kind_text execution = units "execution"
kind_text run = units "run"
kind_text rule = units "rule"
kind_text runtime = units "runtime"

-- The `className` of a pill, as its parts
unfoldable pub pill_classes : (Text → Text) → StatusPillKind → Text → Bool → List Text
unfolding safe_class_segment normalize_status
pill_classes lower kind status pulse =
    let safe_status = safe_class_segment (or_unknown (normalize_status lower status)) in
    units "status-pill"
    ∷ (units "status-pill--" ++ kind_text kind)
    ∷ (units "status-pill--" ++ safe_status)
    ∷ (units "status-" ++ safe_status)
    ∷ (if pulse then units "status-pill--pulse" ∷ [] else [])
