-- ===== src/KeyPool/Judge.antt =====
-- `KeyPool.select` of app/core/key_pool.py: the loop over the key rows.
use fcam_gateway.Prelude.{
  ℕ, max, Bool, ◌||◌, not, Option, none, some, ltb, if◌then◌else◌, elem, List, [], ◌∷◌, is_some,
}
use fcam_gateway.Prelude.Dict.{Dict}
use fcam_gateway.Floats.{Floats}
use fcam_gateway.Models.{ApiKey, active, is_disabled}
use fcam_gateway.RateLimit.{Bucket}
use fcam_gateway.KeyPool.{
  Scheduling, Penalties, failure_count, score_key, cooldown_remaining, rpm_allows, is_cooling,
  no_credits,
}
use fcam_gateway.KeyPool.Tally.{
  Verdict, excluded, off, no_credit, rpm_blocked, cooling, candidate, Tally, count,
}

-- `max(remaining, store_remaining)`
unfoldable pub cooling_seconds : ApiKey → ℕ → Option ℕ → ℕ
unfolding cooldown_remaining
cooling_seconds key now stored = elim stored [
  | none ↦ cooldown_remaining key.cooldown_until now
  | some s ↦ max (cooldown_remaining key.cooldown_until now) s
]

-- `cooldown expired → reactivate`
abbrev pub reactivate : ApiKey → ApiKey
reactivate key = record key {
  cooldown_until = none;
  status = if is_cooling key.status then active else key.status;
}

-- whether the loop looks at the key's cooldown
abbrev pub has_cooldown : ApiKey → Bool
has_cooldown key = is_cooling key.status || is_some key.cooldown_until

module _ (F : Floats) (second : ℕ) where
  open F use {Float}

  -- what a call of `select` reads around the key rows; `roll` and `pick` are the draws of the
  -- random generator, `cooldown` the cooldown store
  pub record Around : Type 0 where
    pub sched : Scheduling F
    pub now : ℕ
    pub mono : ℕ
    pub buckets : Option (Dict Bucket)
    pub cooldown : ℕ → Option ℕ
    pub exclude : List ℕ
    pub roll : Float
    pub pick : Float

  -- the body of the loop behind the cooldown: credits, RPM, score
  unfoldable pub judge_ready : Around → ApiKey → Penalties F → Verdict Float × Penalties F
  unfolding rpm_allows
  judge_ready a key penalties =
      if no_credits key.cached_remaining_credits
      then (no_credit, penalties)
      else if not (rpm_allows second a.buckets key a.mono)
      then (rpm_blocked, penalties)
      else let r = failure_count F penalties key.id a.sched.fail_half a.mono in
        (elim (score_key F a.sched key a.now r.0) [ none ↦ no_credit | some s ↦ candidate s ], r.1)

  -- the body of the loop
  unfoldable pub judge : Around → ApiKey → Penalties F → Verdict Float × ApiKey × Penalties F
  unfolding cooling_seconds judge_ready
  judge a key penalties =
      if elem key.id a.exclude
      then (excluded, key, penalties)
      else if is_disabled key
      then (off, key, penalties)
      else let remaining = cooling_seconds key a.now (a.cooldown key.id) in
        let reactivated = judge_ready a (reactivate key) penalties in
        let ready = judge_ready a key penalties in
        if has_cooldown key
        then (if ltb 0 remaining
            then (cooling remaining, key, penalties)
            else (reactivated.0, reactivate key, reactivated.1))
        else (ready.0, key, ready.1)

  pub record Scan : Type 0 where
    pub tally : Tally
    pub candidates : List (Float × ApiKey)
    pub keys : List ApiKey
    pub penalties : Penalties F

  abbrev pub add_candidate : Verdict Float → ApiKey → List (Float × ApiKey) → List (Float × ApiKey)
  add_candidate (candidate s) key rest = (s, key) ∷ rest
  add_candidate excluded key rest = rest
  add_candidate off key rest = rest
  add_candidate no_credit key rest = rest
  add_candidate rpm_blocked key rest = rest
  add_candidate (cooling n) key rest = rest

  -- `for key in keys`
  unfoldable pub scan : Around → List ApiKey → Tally → Penalties F → Scan
  unfolding judge count
  scan a [] tally penalties = record {
    tally = tally;
    candidates = [];
    keys = [];
    penalties = penalties;
  }
  scan a (key ∷ keys) tally penalties =
      let j = judge a key penalties in
      let rest = scan a keys (count j.0 tally) j.2 in
      record rest { candidates = add_candidate j.0 j.1 rest.candidates; keys = j.1 ∷ rest.keys }
