-- ===== src/Credit/Schedule.antt =====
-- The refresh schedule of app/core/credit_refresh.py: who is refreshed, when, and how the interval
-- follows the credits.
use native.Mathlib.Decide.{dec_le}
use fcam_gateway.Prelude.{ℕ, ◌+◌, ◌≤◌, ◌<◌, ◌≡◌, ◌≢◌, true, false, none, some, arith}
use fcam_gateway.Models.{ApiKey, is_disabled}
use fcam_gateway.Credit.{
  RefreshConfig, days, or_default, tier, interval_minutes, next_month, next_refresh,
}

-- what the program relies on in the calendar: a month contains its first instant, is at most 31
-- days long, and is an interval
pub record IsCalendar (month_start : ℕ → ℕ) : Type 0 where
  pub starts : (t : ℕ) → month_start t ≤ t
  pub ends : (t : ℕ) → t < month_start t + days 31
  pub interval : (s t : ℕ) → month_start s ≤ t → t ≤ s → month_start t ≡ month_start s

-- the intervals fall as the usage rises
pub record IsGraded (c : RefreshConfig) : Type 0 where
  pub high_le : c.high_usage_interval ≤ c.medium_usage_interval
  pub medium_le : c.medium_usage_interval ≤ c.normal_usage_interval
  pub normal_le : c.normal_usage_interval ≤ c.low_usage_interval

-- With graded intervals, fewer credits left of the same plan never mean a longer wait.
pub interval_mono :
    (c : RefreshConfig) (plan m n : ℕ)
    → IsGraded c
    → m ≤ n
    → interval_minutes c m plan ≤ interval_minutes c n plan
unfolding interval_minutes tier
interval_mono c plan m n g h = ground arith

-- With the smart schedule on, and as many credits left as the threshold (1000 where it is 0), the
-- wait is at least the floor (120 minutes where it is 0).
pub abundant_floor :
    (c : RefreshConfig) (remaining plan : ℕ)
    → c.smart_enabled ≡ true
    → or_default c.abundant_remaining_threshold 1000 ≤ remaining
    → or_default c.abundant_min_interval_minutes 120 ≤ interval_minutes c remaining plan
unfolding interval_minutes
abundant_floor c remaining plan s h = ground arith

module _ (month_start : ℕ → ℕ) (config : RefreshConfig) where
  -- In a calendar of intervals of at most 31 days, the next month starts after now, and within 32 days of this month's start.
  pub next_month_later :
      (now : ℕ)
      → IsCalendar month_start
      → (now < next_month month_start config now)
        × (next_month month_start config now ≤ month_start now + days 32)
  unfolding next_month
  next_month_later now cal =
      let m = month_start now in
      let n = month_start (m + days 32) in
      let later : now < n = elim (dec_le n now) [
        | yes h ↦ absurd (
            omega (
              arith,
              cal.starts now,
              cal.ends now,
              cal.ends (m + days 32),
              cal.interval (m + days 32) now h (omega (arith, cal.ends now)),
            ))
        | no h ↦ omega arith
      ] in
      (later, cal.starts (m + days 32))

  -- In a calendar of intervals of at most 31 days, a key is scheduled exactly when it is not disabled, and never into the past.
  pub next_refresh_later :
      (key : ApiKey) (now : ℕ)
      → IsCalendar month_start
      → (is_disabled key ≡ true → next_refresh month_start config key now ≡ none)
        × (is_disabled key ≡ false → next_refresh month_start config key now ≢ none)
        × ((t : ℕ) → next_refresh month_start config key now ≡ some t → now ≤ t)
  unfolding next_refresh
  next_refresh_later key now cal =
      (λ d. ground arith, λ d. ground arith, λ t e. ground (arith, next_month_later now cal))
