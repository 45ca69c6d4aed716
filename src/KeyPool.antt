-- ===== src/KeyPool.antt =====
-- app/core/key_pool.py. The class's state, the failure memory, the score and the gates that a key
-- passes; `select` is the child Select. `time.monotonic()` and `now_utc()` are arguments.
pub mod Reason
pub mod Tally
pub mod Judge
pub mod Choice
pub mod Select
pub mod Chosen
pub mod Eligible
pub mod Total
use fcam_gateway.Prelude.{
  ℕ, ◌+◌, ◌-◌, ◌/◌, max, Bool, true, false, ◌&&◌, ◌||◌, not, Option, none, some, ◌==◌, leb, ltb,
  if◌then◌else◌, elem, List, get_or,
}
use fcam_gateway.Prelude.Dict.{Dict, insert, erase}
use fcam_gateway.Floats.{Floats}
use fcam_gateway.Models.{ApiKey, Status, is_disabled, is_terminal}
use fcam_gateway.RateLimit.{Bucket, peek}

-- `_SCORE_4XX_REASON_TOKENS` and `_KEY_ATTRIBUTABLE_STATUSES` at a status code
unfoldable pub is_key_attributable : ℕ → Bool
is_key_attributable code = code == 401 || code == 402 || code == 429

-- the scheduling settings that `select` reads
pub record Scheduling (F : Floats) : Type 0 where
  pub half_life : F.Float
  pub unknown_baseline : F.Float
  pub epsilon : F.Float
  pub near_ratio : F.Float
  pub fail_half : F.Float
  pub fail_unit : F.Float

-- `remaining is not None and int(remaining) <= 0`
abbrev pub no_credits : Option ℕ → Bool
no_credits none = false
no_credits (some remaining) = remaining == 0

module _ (F : Floats) where
  open F use {Float, of_ℕ, lit, seconds, le, add, mul, div, log1p, half_pow}

  -- `_nn_failures`: the weighted count and the time of the last event
  abbrev pub Penalties : Type 0
  Penalties = Dict (Float × ℕ)

  abbrev pub zero_float : Float
  zero_float = of_ℕ 0

  -- a < b
  abbrev pub lt : Float → Float → Bool
  lt a b = F.lt a b

  -- Python's max(a, b)
  abbrev pub fmax : Float → Float → Float
  fmax a b = if lt a b then b else a

  -- `record_success`
  unfoldable pub record_success : Penalties → ℕ → Penalties
  record_success failures id = erase id failures

  -- `record_failure`, behind the test `is_4xx_score_failure`
  unfoldable pub record_failure : Penalties → ℕ → Bool → ℕ → Penalties
  record_failure failures id counts mono =
      if counts
      then insert id (add (get_or (failures id) (zero_float, mono)).0 (of_ℕ 1), mono) failures
      else failures

  -- `_failure_count`
  unfoldable pub failure_count : Penalties → ℕ → Float → ℕ → Float × Penalties
  failure_count failures id half_life mono = elim (failures id) [
    | none ↦ (zero_float, failures)
    | some (count, last) ↦
        if le count zero_float
        then (zero_float, failures)
        else let decayed =
            mul count (half_pow (div (seconds (mono - last)) (fmax half_life (of_ℕ 1)))) in
          if lt decayed (lit 5 100)
          then (zero_float, erase id failures)
          else (decayed, insert id (decayed, mono) failures)
  ]

  -- `credit_weight` of `score_key`
  unfoldable pub credit_weight : Float → Option ℕ → Float
  credit_weight baseline none = log1p (fmax baseline zero_float)
  credit_weight baseline (some remaining) = log1p (of_ℕ remaining)

  -- `freshness_weight`
  unfoldable pub freshness_weight : Float → ℕ → Option ℕ → Float
  freshness_weight half_life now none = lit 55 100
  freshness_weight half_life now (some checked) =
      div (of_ℕ 1) (add (of_ℕ 1) (div (seconds (now - checked)) (fmax half_life (of_ℕ 1))))

  -- `failure_weight`
  unfoldable pub failure_weight : Float → Float → Float
  failure_weight failures unit =
      let fails = fmax failures zero_float in
      let u = fmax unit zero_float in
      if le u zero_float || le fails zero_float
      then of_ℕ 1
      else div (of_ℕ 1) (add (of_ℕ 1) (mul fails u))

  -- `score_key`
  unfoldable pub score_key : Scheduling F → ApiKey → ℕ → Float → Option Float
  unfolding credit_weight freshness_weight failure_weight
  score_key sched key now failures =
      if no_credits key.cached_remaining_credits
      then none
      else some (
          mul
            (mul (credit_weight sched.unknown_baseline key.cached_remaining_credits)
              (freshness_weight sched.half_life now key.last_credit_check_at))
            (failure_weight failures sched.fail_unit))

-- `_cooldown_remaining_seconds`: whole seconds
unfoldable pub cooldown_remaining : Option ℕ → ℕ → ℕ
cooldown_remaining none now = 0
cooldown_remaining (some until) now = (until - now) / 1000000

-- `_rpm_allows`; `none` stands for a limiter that is absent or has no `peek`
unfoldable pub rpm_allows : ℕ → Option (Dict Bucket) → ApiKey → ℕ → Bool
rpm_allows second none key mono = true
rpm_allows second (some buckets) key mono =
    if key.rate_limit_per_min == 0
    then true
    else (peek second buckets key.id key.rate_limit_per_min mono).allowed

-- status in COOLING_STATUSES or status == "cooling"
abbrev pub is_cooling : Status → Bool
is_cooling Status.cooling = true
is_cooling Status.failed = true
is_cooling Status.active = false
is_cooling Status.disabled = false
is_cooling Status.decrypt_failed = false
is_cooling Status.invalid = false
