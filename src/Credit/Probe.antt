-- ===== src/Credit/Probe.antt =====
-- The credit probe of app/core/credit_fetcher.py: what the answer of the credit endpoint means, and
-- the refresh behind a failed request.
use text.Mathlib.Text.{◌==◌ as str_eq}
use fcam_gateway.Prelude.{
  ℕ, ◌-◌, Bool, true, false, ◌&&◌, ◌||◌, not, none, some, ◌==◌, ltb, if◌then◌else◌, List,
}
use fcam_gateway.Prelude.Dict.{Dict, insert}
use fcam_gateway.Models.{ApiKey, Status, Session, commit}
use fcam_gateway.Credit.{
  Kind, success, decrypt_failed, invalid, cooling, error, FetchResult, RefreshConfig, apply_result,
}

-- what the HTTP client brings back
pub data Answer : Type 0 where
  timeout transport : Answer
  -- 200 with a body: not JSON, `success` false, or the two counts
  unreadable refused : Answer
  counts : ℕ → ℕ → Answer
  -- any other status
  other : ℕ → Answer

abbrev plain : Kind → ℕ → FetchResult
plain k now = record { kind = k; remaining_credits = 0; plan_credits = 0; fetched_at = now }

-- `probe_credit_from_firecrawl_sync` behind the request
unfoldable pub read_answer : Answer → ℕ → FetchResult
read_answer timeout now = plain error now
read_answer transport now = plain error now
read_answer unreadable now = plain error now
read_answer refused now = plain error now
read_answer (counts remaining plan) now = record {
  kind = success;
  remaining_credits = remaining;
  plan_credits = plan;
  fetched_at = now;
}
read_answer (other status) now =
    if status == 401 || status == 403
    then plain invalid now
    else if status == 429
    then plain cooling now
    else plain error now

-- `status in {"disabled", "decrypt_failed"}`
abbrev skips : Status → Bool
skips Status.disabled = true
skips Status.decrypt_failed = true
skips Status.invalid = false
skips Status.active = false
skips Status.cooling = false
skips Status.failed = false

-- `_DEFAULT_4XX_REFRESH_DEBOUNCE_SECONDS`, in microseconds
abbrev pub debounce_time : ℕ
debounce_time = 10000000

-- the tests ahead of the debounce
unfoldable pub skips_refresh : ApiKey → Bool
skips_refresh key = not (str_eq key.provider "firecrawl") || not key.is_active && skips key.status

-- `(now_m - last) < deb`
unfoldable pub is_debounced : Dict ℕ → ℕ → ℕ → Bool
is_debounced last id mono = elim (last id) [ none ↦ false | some t ↦ ltb (mono - t) debounce_time ]

module _ (month_start : ℕ → ℕ) (config : RefreshConfig) (decrypts : List ℕ → Bool) where
  -- apply, then commit or roll back
  unfoldable pub apply_and_commit : FetchResult → ℕ → ℕ → Session → Session
  unfolding apply_result commit
  apply_and_commit r now id s = (commit (apply_result month_start config r now id s)).1

  -- `refresh_credits_after_4xx`; `answer` is what a probe would bring at this moment, and the last
  -- part of the result whether it was made
  unfoldable pub refresh_after_4xx :
      Answer → ℕ → ApiKey → Dict ℕ → Session → Bool × Dict ℕ × Session
  unfolding skips_refresh is_debounced apply_and_commit read_answer
  refresh_after_4xx answer now key last s =
      if skips_refresh key
      then (false, last, s)
      else if is_debounced last key.id now
      then (false, last, s)
      else if decrypts key.ciphertext
      then (true, insert key.id now last, apply_and_commit (read_answer answer now) now key.id s)
      else (false, insert key.id now last, apply_and_commit (plain decrypt_failed now) now key.id s)
