-- ===== src/Pages/Formats.antt =====
-- Figures and dates as the pages show them: web/src/pages/SettingsPage.tsx, web/src/pages/IssueDetailPage.tsx,
-- web/src/components/IssueAttachmentsPanel.tsx and web/src/components/DateTimeText.tsx. The argument
-- `to_fixed n d k` is `(n / d).toFixed(k)`; to divide by 1024 is exact. The argument `number` is `Number` on
-- the digits that the server writes.
pub mod Bounds
mod Tests
use cron_agent_dashboard.Prelude.{
  ℕ, zero, suc, ◌+◌, ◌-◌, ◌*◌, ◌/◌, ◌%◌, ◌≤◌, ◌<◌, max, ◌≡◌, refl, sym, ap, ◌∙◌, subst, ◌≢◌, ◌↔◌,
  ◌⊎◌, inl, inr, Bool, true, false, not, ◌&&◌, ◌||◌, Option, none, some, List, [], ◌∷◌, ◌++◌, map,
  arith, Text, units, text_eq, text_eq_iff, text_eq_refl, trim, trim_start, trim_end, is_empty,
  truthy, text_or_empty, or_default, or_text, coalesce, filter, find, any, all, take, length,
  if◌then◌else◌, ltb, leb, ◌==◌, decimal, is_some, head?, Bool-cases, Option-cases, All, All-append,
  All-imp, trimmed, starts_with, sum_by,
}
use cron_agent_dashboard.Prelude.Int.{ℤ, pos, negsuc, ◌-ℤ◌}

-- SettingsPage.tsx and IssueDetailPage.tsx
unfoldable pub format_tokens : (ℕ → ℕ → ℕ → Text) → ℕ → Text
format_tokens to_fixed n =
    if leb 1000000 n
    then to_fixed n 1000000 2 ++ units "M"
    else if leb 1000 n
    then to_fixed n 1000 1 ++ units "k"
    else decimal n

unfoldable pub format_cost_micros : (ℕ → ℕ → ℕ → Text) → ℕ → Text
format_cost_micros to_fixed n = units "$" ++ to_fixed n 1000000 4

-- IssueDetailPage.tsx, and `formatSize` of IssueAttachmentsPanel.tsx
unfoldable pub format_bytes : (ℕ → ℕ → ℕ → Text) → ℕ → Text
format_bytes to_fixed n =
    if ltb n 1024
    then decimal n ++ units " B"
    else if ltb n (1024 * 1024)
    then to_fixed n 1024 1 ++ units " KB"
    else to_fixed n (1024 * 1024) 1 ++ units " MB"

-- The loop over the units that are left; `divisor` is 1024 to the number of those passed.
unfoldable pub scale_bytes : (ℕ → ℕ → ℕ → Text) → ℕ → ℕ → Text → List Text → Text
scale_bytes to_fixed n divisor unit [] = to_fixed n divisor 1 ++ (units " " ++ unit)
scale_bytes to_fixed n divisor unit (next ∷ rest) =
    let scaled = scale_bytes to_fixed n (divisor * 1024) next rest in
    if leb (divisor * 1024) n then scaled else to_fixed n divisor 1 ++ (units " " ++ unit)

-- SettingsPage.tsx
unfoldable pub format_bytes_scaled : (ℕ → ℕ → ℕ → Text) → ℕ → Text
unfolding scale_bytes
format_bytes_scaled to_fixed n =
    if ltb n 1024
    then decimal n ++ units " B"
    else scale_bytes to_fixed n 1024 (units "KB") (units "MB" ∷ units "GB" ∷ units "TB" ∷ [])

-- `text.replace('T', ' ')`
unfoldable pub replace_t : Text → Text
replace_t [] = []
replace_t (c ∷ s) = if c == 0x54 then 0x20 ∷ s else c ∷ replace_t s

abbrev pub stamp : Text → Text
stamp at = replace_t (take 19 at)

unfoldable pub format_timestamp : Option Text → Text
unfolding replace_t
format_timestamp value =
    if not (truthy (trimmed value))
    then units "아직 측정되지 않음"
    else stamp (text_or_empty (trimmed value)) ++ units " UTC"

pub record WorktreeMaintenance : Type 0 where
  pub worktree_bytes : Option Text
  pub worktree_dir_count : Option Text
  pub worktree_pruned_last_pass : Option Text
  pub worktree_measured_at : Option Text

pub record WorktreeStats : Type 0 where
  pub measured_at : Text
  pub dir_count : ℕ
  pub bytes : ℕ
  pub pruned_last_pass : ℕ

abbrev pub number_or_zero : (Text → ℕ) → Option Text → ℕ
number_or_zero number none = 0
number_or_zero number (some s) = number s

abbrev pub get_worktree_stats : (Text → ℕ) → Option WorktreeMaintenance → WorktreeStats
get_worktree_stats number none = record {
  measured_at = [];
  dir_count = 0;
  bytes = 0;
  pruned_last_pass = 0;
}
get_worktree_stats number (some m) = record {
  measured_at = text_or_empty (trimmed m.worktree_measured_at);
  dir_count = number_or_zero number m.worktree_dir_count;
  bytes = number_or_zero number m.worktree_bytes;
  pruned_last_pass = number_or_zero number m.worktree_pruned_last_pass;
}

unfoldable pub format_worktree_usage :
    (Text → ℕ) → (ℕ → ℕ → ℕ → Text) → Option WorktreeMaintenance → Text
unfolding format_bytes_scaled
format_worktree_usage number to_fixed m =
    let stats = get_worktree_stats number m in
    if is_empty stats.measured_at
    then units "아직 측정되지 않음"
    else if stats.dir_count == 0
    then units "0개 · 0 B (모두 정리됨)"
    else decimal stats.dir_count
      ++ units "개 · "
      ++ format_bytes_scaled to_fixed stats.bytes
      ++ (if ltb 0 stats.pruned_last_pass
          then units " · 직전 GC " ++ decimal stats.pruned_last_pass ++ units "개 정리"
          else [])

pub record LogCleanup : Type 0 where
  pub last_log_cleanup_at : Option Text
  pub last_log_cleanup_files : Option Text
  pub last_log_cleanup_bytes : Option Text

unfoldable pub format_last_log_cleanup : (Text → ℕ) → (ℕ → ℕ → ℕ → Text) → LogCleanup → Text
unfolding format_bytes_scaled replace_t
format_last_log_cleanup number to_fixed m =
    if not (truthy (trimmed m.last_log_cleanup_at))
    then units "아직 실행되지 않음"
    else stamp (text_or_empty (trimmed m.last_log_cleanup_at))
      ++ units " UTC — 파일 "
      ++ decimal (number_or_zero number m.last_log_cleanup_files)
      ++ units "개 / "
      ++ format_bytes_scaled to_fixed (number_or_zero number m.last_log_cleanup_bytes)

-- `formatDetails` of IssueDetailPage.tsx, on entries whose values are texts
unfoldable pub format_details : List (Text × Text) → Text
format_details [] = []
format_details ((k, v) ∷ []) = k ++ units ": " ++ v
format_details ((k, v) ∷ e ∷ es) = k ++ units ": " ++ v ++ units " · " ++ format_details (e ∷ es)

pub data TimeUnit : Type 0 where
  second minute hour day week month year : TimeUnit

abbrev pub abs : ℤ → ℕ
abs (pos n) = n
abs (negsuc n) = suc n

-- `Math.round(d / (2 * half))`: halves go up; `half` is half the unit.
unfoldable pub round_to : ℕ → ℤ → ℤ
round_to half (pos n) = pos ((n + half) / (2 * half))
round_to half (negsuc n) =
    let m = (suc n + half - 1) / (2 * half) in if m == 0 then pos 0 else negsuc (m - 1)

-- `formatRelativeTime`, up to the host's words
unfoldable pub relative_time_of : ℤ → ℤ → ℤ × TimeUnit
unfolding round_to
relative_time_of time base_time =
    let diff = time -ℤ base_time in
    let ms = abs diff in
    if ltb ms 60000
    then (round_to 500 diff, second)
    else if ltb ms 3600000
    then (round_to 30000 diff, minute)
    else if ltb ms 86400000
    then (round_to 1800000 diff, hour)
    else if ltb ms 604800000
    then (round_to 43200000 diff, day)
    else if ltb ms 2592000000
    then (round_to 302400000 diff, week)
    else if ltb ms 31536000000
    then (round_to 1296000000 diff, month)
    else (round_to 15768000000 diff, year)

pub data DateMode : Type 0 where
  absolute relative both : DateMode

-- What a `DateTimeText` shows; `parse`, `show_absolute` and `show_relative` are the host's.
unfoldable pub date_time_text :
    (Text → Option ℤ)
    → (ℤ → Text)
    → (ℤ → TimeUnit → Text)
    → ℤ
    → Option Text
    → DateMode
    → Text
    → Text
unfolding relative_time_of
date_time_text parse show_absolute show_relative now value mode empty =
    if not (truthy (trimmed value)) then empty else elim (parse (text_or_empty (trimmed value))) [
      | none ↦ text_or_empty (trimmed value)
      | some time ↦
          let (n, unit) = relative_time_of time now in
          elim mode [
            | absolute ↦ show_absolute time
            | relative ↦ show_relative n unit
            | both ↦ show_absolute time ++ units " (" ++ show_relative n unit ++ units ")"
          ]
    ]
