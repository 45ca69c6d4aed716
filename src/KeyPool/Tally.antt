-- ===== src/KeyPool/Tally.antt =====
-- `KeyPool.select` of app/core/key_pool.py: the verdicts on the keys, their counters, and the error
-- raised where no key is left.
use fcam_gateway.Prelude.{ℕ, ◌+◌, min, ◌&&◌, Option, none, some, ◌==◌, leb, ltb, if◌then◌else◌}
use fcam_gateway.Models.{failure_after, failure, Failure, Code}

-- what the loop finds of one key
pub data Verdict {ℓ} (A : Type ℓ) : Type ℓ where
  excluded off no_credit rpm_blocked : Verdict A
  cooling : ℕ → Verdict A
  candidate : A → Verdict A

-- the counters of the loop
pub record Tally : Type 0 where
  pub cooling_retry_after : Option ℕ
  pub cooling_seen : ℕ
  pub disabled_seen : ℕ
  pub zero_credit_seen : ℕ
  pub excluded_seen : ℕ
  pub rpm_blocked_seen : ℕ

abbrev pub no_tally : Tally
no_tally = record {
  cooling_retry_after = none;
  cooling_seen = 0;
  disabled_seen = 0;
  zero_credit_seen = 0;
  excluded_seen = 0;
  rpm_blocked_seen = 0;
}

unfoldable pub count {ℓ} : {A : Type ℓ} → Verdict A → Tally → Tally
count excluded t = record t { excluded_seen = t.excluded_seen + 1 }
count off t = record t { disabled_seen = t.disabled_seen + 1 }
count no_credit t = record t { zero_credit_seen = t.zero_credit_seen + 1 }
count rpm_blocked t = record t { rpm_blocked_seen = t.rpm_blocked_seen + 1 }
count (cooling remaining) t = record t {
  cooling_seen = t.cooling_seen + 1;
  cooling_retry_after = elim t.cooling_retry_after [
    | none ↦ some remaining
    | some r ↦ some (min r remaining)
  ];
}
count (candidate a) t = t

-- the errors when no candidate is left, of `n` keys
unfoldable pub no_candidate : ℕ → Tally → Failure
no_candidate n t =
    if leb n (t.disabled_seen + t.excluded_seen)
      && ltb 0 t.disabled_seen
      && t.zero_credit_seen == 0
      && t.cooling_seen == 0
      && t.rpm_blocked_seen == 0
    then failure 503 Code.all_keys_disabled
    else if ltb 0 t.zero_credit_seen
        && leb n (
            t.zero_credit_seen + t.disabled_seen + t.excluded_seen + t.cooling_seen
            + t.rpm_blocked_seen)
        && t.cooling_seen == 0
        && t.rpm_blocked_seen == 0
    then failure 503 Code.all_keys_no_credits
    else if ltb 0 t.cooling_seen
        && leb n (
            t.cooling_seen + t.disabled_seen + t.excluded_seen + t.zero_credit_seen
            + t.rpm_blocked_seen)
    then failure_after 429 Code.all_keys_cooling t.cooling_retry_after
    else if ltb 0 t.rpm_blocked_seen
        && leb n (
            t.rpm_blocked_seen + t.disabled_seen + t.excluded_seen + t.zero_credit_seen
            + t.cooling_seen)
    then failure_after 429 Code.all_keys_rate_limited (some 1)
    else failure 503 Code.no_key_available
