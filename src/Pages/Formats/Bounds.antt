-- ===== src/Pages/Formats/Bounds.antt =====
-- What the figures and dates agree on.
use cron_agent_dashboard.Prelude.{
  ℕ, ◌*◌, ◌≤◌, ◌<◌, ◌≡◌, inl, inr, arith, Text, if◌then◌else◌, ltb, Bool-cases,
}
use cron_agent_dashboard.Prelude.Int.{ℤ, pos, negsuc, ◌-ℤ◌}
use cron_agent_dashboard.Pages.Formats.{
  format_bytes, format_bytes_scaled, scale_bytes, TimeUnit, second, minute, hour, day, week, month,
  year, abs, round_to, relative_time_of,
}

-- Below a gigabyte the settings write an amount of bytes as the other pages do.
pub format_bytes_scaled-eq-format_bytes :
    (to_fixed : ℕ → ℕ → ℕ → Text) (n : ℕ)
    → n < 1024 * 1024 * 1024
    → format_bytes_scaled to_fixed n ≡ format_bytes to_fixed n
unfolding format_bytes_scaled format_bytes scale_bytes
format_bytes_scaled-eq-format_bytes to_fixed n h = ground (arith, h)

-- A number between these
abbrev pub Between : ℕ → ℕ → ℤ → Type 0
Between least most n = (least ≤ abs n) × (abs n ≤ most)

-- The numbers that are shown in a unit
abbrev pub IsShown : ℤ → TimeUnit → Type 0
IsShown n second = Between 0 60 n
IsShown n minute = Between 1 60 n
IsShown n hour = Between 1 24 n
IsShown n day = Between 1 7 n
IsShown n week = Between 1 4 n
IsShown n month = Between 1 12 n
IsShown n year = 1 ≤ abs n

in_seconds : (d : ℤ) → 0 ≤ abs d → abs d < 60000 → IsShown (round_to 500 d) second
unfolding round_to
in_seconds (pos n) h k = (omega arith, omega arith)
in_seconds (negsuc n) h k = (ground arith, ground arith)

in_minutes : (d : ℤ) → 60000 ≤ abs d → abs d < 3600000 → IsShown (round_to 30000 d) minute
unfolding round_to
in_minutes (pos n) h k = (omega arith, omega arith)
in_minutes (negsuc n) h k = (ground arith, ground arith)

in_hours : (d : ℤ) → 3600000 ≤ abs d → abs d < 86400000 → IsShown (round_to 1800000 d) hour
unfolding round_to
in_hours (pos n) h k = (omega arith, omega arith)
in_hours (negsuc n) h k = (ground arith, ground arith)

in_days : (d : ℤ) → 86400000 ≤ abs d → abs d < 604800000 → IsShown (round_to 43200000 d) day
unfolding round_to
in_days (pos n) h k = (omega arith, omega arith)
in_days (negsuc n) h k = (ground arith, ground arith)

in_weeks : (d : ℤ) → 604800000 ≤ abs d → abs d < 2592000000 → IsShown (round_to 302400000 d) week
unfolding round_to
in_weeks (pos n) h k = (omega arith, omega arith)
in_weeks (negsuc n) h k = (ground arith, ground arith)

in_months :
    (d : ℤ) → 2592000000 ≤ abs d → abs d < 31536000000 → IsShown (round_to 1296000000 d) month
unfolding round_to
in_months (pos n) h k = (omega arith, omega arith)
in_months (negsuc n) h k = (ground arith, ground arith)

in_years : (d : ℤ) → 31536000000 ≤ abs d → IsShown (round_to 15768000000 d) year
unfolding round_to
in_years (pos n) h = omega arith
in_years (negsuc n) h = ground arith

-- A number and its unit
abbrev Shown : ℤ × TimeUnit → Type 0
Shown told = IsShown told.0 told.1

if_less :
    (m k : ℕ) (x y : ℤ × TimeUnit)
    → (m < k → Shown x)
    → (k ≤ m → Shown y)
    → Shown (if ltb m k then x else y)
if_less m k x y f g = elim (Bool-cases (ltb m k)) [
  | inl e ↦ rw e (f (ground (arith, e)))
  | inr e ↦ rw e (g (ground (arith, e)))
]

-- A time is told in seconds by 60 at most, in minutes by 1 to 60, in hours by 1 to 24, in days by 1 to 7, in
-- weeks by 1 to 4, in months by 1 to 12, and in years by 1 at least, on either side of now.
pub relative_time_of-IsShown :
    (time base_time : ℤ)
    → IsShown (relative_time_of time base_time).0 (relative_time_of time base_time).1
unfolding relative_time_of
relative_time_of-IsShown time base_time =
    let d = time -ℤ base_time in
    let m = abs d in
    if_less m 60000 _ _ (in_seconds d (omega arith)) (λ a.
      if_less m 3600000 _ _ (in_minutes d a) (λ b. if_less m 86400000 _ _ (in_hours d b) (λ c.
        if_less m 604800000 _ _ (in_days d c) (λ e.
          if_less m 2592000000 _ _ (in_weeks d e)
            (λ f. if_less m 31536000000 _ _ (in_months d f) (in_years d))))))
