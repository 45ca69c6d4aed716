-- ===== src/Credit.antt =====
-- Credit monitoring: app/core/credit_fetcher.py and the schedule of app/core/credit_refresh.py.
-- Times are microseconds; the calendar's month is a parameter.
pub mod Schedule
pub mod Apply
pub mod Probe
pub mod Refresh
pub mod Round
pub mod Overdue
pub mod Left
use fcam_gateway.Prelude.{
  ℕ, ◌+◌, ◌*◌, max, Bool, true, false, ◌&&◌, ◌||◌, not, Option, none, some, ◌==◌, leb, ltb,
  if◌then◌else◌, get_or, List, [], ◌∷◌, ◌++◌,
}
use fcam_gateway.Models.{ApiKey, Status, is_disabled, Session, Snapshot, assign_key}

-- `SmartRefresh` and `FixedRefresh` of app/config.py, in minutes
pub record RefreshConfig : Type 0 where
  pub smart_enabled : Bool
  pub high_usage_interval : ℕ
  pub medium_usage_interval : ℕ
  pub normal_usage_interval : ℕ
  pub low_usage_interval : ℕ
  pub abundant_remaining_threshold : ℕ
  pub abundant_min_interval_minutes : ℕ
  pub fixed_interval : ℕ

abbrev pub minutes : ℕ → ℕ
minutes m = m * 60000000

abbrev pub days : ℕ → ℕ
days d = d * 86400000000

-- `x or d` on a number
abbrev pub or_default : ℕ → ℕ → ℕ
or_default x d = if x == 0 then d else x

-- the tiers of `usage_ratio = 1 - remaining / plan`, compared exactly
unfoldable pub tier : RefreshConfig → ℕ → ℕ → ℕ
tier c remaining plan =
    if ltb (10 * remaining) plan
    then c.high_usage_interval
    else if ltb (10 * remaining) (3 * plan)
    then c.medium_usage_interval
    else if ltb (2 * remaining) plan
    then c.normal_usage_interval
    else c.low_usage_interval

unfoldable pub interval_minutes : RefreshConfig → ℕ → ℕ → ℕ
unfolding tier
interval_minutes c remaining plan =
    if not c.smart_enabled
    then c.fixed_interval
    else if leb (or_default c.abundant_remaining_threshold 1000) remaining
    then max (tier c remaining plan) (or_default c.abundant_min_interval_minutes 120)
    else tier c remaining plan

-- `CreditFetchResult`
pub data Kind : Type 0 where
  success decrypt_failed invalid cooling error : Kind

pub record FetchResult : Type 0 where
  pub kind : Kind
  pub remaining_credits : ℕ
  pub plan_credits : ℕ
  pub fetched_at : ℕ

-- `month_start t`: the first instant of the month of `t`
module _ (month_start : ℕ → ℕ) (config : RefreshConfig) where
  -- `next_month.replace(day=1)`
  unfoldable pub next_month : ℕ → ℕ
  next_month now = month_start (month_start now + days 32)

  -- `calculate_next_refresh_time`
  unfoldable pub next_refresh : ApiKey → ℕ → Option ℕ
  unfolding next_month interval_minutes
  next_refresh key now = if is_disabled key then none else elim key.cached_remaining_credits [
    | none ↦ some now
    | some remaining ↦ elim key.cached_plan_credits [
      | none ↦ some now
      | some plan ↦
          if plan == 0
          then some (now + minutes config.fixed_interval)
          else if remaining == 0
          then some (next_month now)
          else some (now + minutes (interval_minutes config remaining plan))
    ]
  ]

  -- the columns that `apply_credit_fetch_result` writes; `id` is the new snapshot's
  unfoldable pub apply_row : FetchResult → ℕ → ℕ → ApiKey → ApiKey
  unfolding next_refresh
  apply_row r id now key = elim r.kind [
    | decrypt_failed ↦ record key {
      status = Status.decrypt_failed;
      is_active = false;
      next_refresh_at = none;
    }
    | invalid ↦ record key {
      status = Status.invalid;
      is_active = false;
      next_refresh_at = none;
      cached_remaining_credits = some 0;
    }
    | cooling ↦ record key { status = Status.cooling; cooldown_until = some r.fetched_at }
    | success ↦
        let fresh = record key {
          cached_remaining_credits = some r.remaining_credits;
          cached_plan_credits = some r.plan_credits;
          last_credit_snapshot_id = some id;
          last_credit_check_at = some r.fetched_at;
        } in
        record fresh { next_refresh_at = next_refresh fresh now }
    | error ↦ key
  ]

  abbrev pub is_success : Kind → Bool
  is_success success = true
  is_success decrypt_failed = false
  is_success invalid = false
  is_success cooling = false
  is_success error = false

  -- the `CreditSnapshot` of the attempt
  unfoldable pub snapshot_of : FetchResult → ℕ → ℕ → Snapshot
  snapshot_of r id key = record {
    id = id;
    api_key_id = key;
    remaining_credits = if is_success r.kind then r.remaining_credits else 0;
    plan_credits = if is_success r.kind then r.plan_credits else 0;
    fetch_success = is_success r.kind;
  }

  -- `apply_credit_fetch_result`
  unfoldable pub apply_result : FetchResult → ℕ → ℕ → Session → Session
  unfolding apply_row snapshot_of assign_key
  apply_result r now id s =
      let t = assign_key id (apply_row r s.tables.next_snapshot_id now) s in
      record t {
        tables = record t.tables {
          snapshots = t.tables.snapshots ++ snapshot_of r t.tables.next_snapshot_id id ∷ [];
          next_snapshot_id = t.tables.next_snapshot_id + 1;
        };
      }
