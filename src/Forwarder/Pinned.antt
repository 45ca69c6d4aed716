-- ===== src/Forwarder/Pinned.antt =====
-- `Forwarder.forward` of app/core/forwarder.py with a pinned key: the upstream resource belongs to
-- that key, so no other may serve the request.
use fcam_gateway.Prelude.{ℕ, zero, suc, ◌+◌, ◌-◌, Option, none, some, leb, if◌then◌else◌}
use fcam_gateway.Models.{ApiKey, Result, ok, err, failure, failure_after, Code}
use fcam_gateway.RateLimit.{allow}
use fcam_gateway.Concurrency.{Lease, try_acquire, release}
use fcam_gateway.Forwarder.{KeyPoolApi, Env, Response, timeout, http_error, response}
use fcam_gateway.Forwarder.Outcome.{
  fine, credit, rate_limit, invalid_key, upstream_5xx, passthrough, classify, is_2xx, cooldown_for,
}
use fcam_gateway.Forwarder.Marks.{
  W, mark_cooling, disable_key, disable_decrypt_failed, no_credits_left, record_failure,
  refresh_on_4xx,
}
use fcam_gateway.Prelude.Text.{codes}
use fcam_gateway.Forwarder.Shared.{Request, ForwardResult, send, timed_out, unreachable, on_success}

-- clock ticks to the second
abbrev pub tick : ℕ
tick = 1000000

module _ (K : KeyPoolApi) (env : Env) where
  pub data Round : Type 0 where
    answered : Result ForwardResult → W K env → Round
    retry : W K env → Round

  -- `lease.release()`
  unfoldable pub give_back : Lease → W K env → W K env
  give_back lease w = record w { leases = (release w.leases lease).1 }

  -- the result of the attempt; `retry_count` is the number of the attempt
  abbrev pub result : ApiKey → Response → ℕ → ForwardResult
  result key r attempt = record {
    answer = r;
    upstream_status = some r.status;
    api_key_id = some key.id;
    retry_count = attempt;
    switches = 0;
  }

  -- the end of the attempt, for what is neither the key's fault nor the upstream's
  unfoldable pub pass_on : Request → ApiKey → Response → ℕ → W K env → Round
  pass_on q key r attempt w =
      if is_2xx r.status
      then (let done = on_success K env w q r key.id in
          elim done.0 [
            | ok u ↦ answered (ok (result key r attempt)) done.1
            | err f ↦ answered (err f) done.1
          ])
      else answered (ok (result key r attempt)) w

  -- the attempt from its response on
  unfoldable pub judge_reply : Request → ApiKey → ℕ → ℕ → Response → W K env → Round
  unfolding pass_on
  judge_reply q key total attempt r w = elim (classify r) [
    | rate_limit ↦
        let cooled =
          mark_cooling K env (refresh_on_4xx K env w key.id 429) key.id
            (cooldown_for r.retry_after env.config.cooldown_seconds) in
        if leb (total - 1) attempt
        then answered (ok (result key r attempt)) cooled
        else retry cooled
    | invalid_key ↦
        answered (ok (result key r attempt))
          (disable_key K env (refresh_on_4xx K env w key.id r.status) key.id)
    | credit ↦
        pass_on q key r attempt
          (no_credits_left K env (refresh_on_4xx K env w key.id r.status) key.id)
    | upstream_5xx ↦
        answered (ok (result key r attempt))
          (record_failure K env w key.id (codes "upstream_5xx") (some r.status))
    | fine ↦ pass_on q key r attempt w
    | passthrough ↦ pass_on q key r attempt w
  ]

  -- the attempt under its lease
  unfoldable pub leased : Request → ApiKey → ℕ → ℕ → Lease → W K env → Round
  unfolding give_back judge_reply
  leased q key total attempt lease w =
      if env.decrypts key.ciphertext
      then (let x = send K env w key in
          elim x.0 [
            | timeout ↦
                (let e = timed_out K env x.1 key.id in answered (err e.0) (give_back lease e.1))
            | http_error ↦
                (let e = unreachable K env x.1 key.id in answered (err e.0) (give_back lease e.1))
            | response r ↦ judge_reply q key total attempt r (give_back lease x.1)
          ])
      else answered (err (failure 503 Code.key_decrypt_failed))
          (give_back lease (disable_decrypt_failed K env w key.id))

  -- the body of `for attempt in range(total_attempts)`
  unfoldable pub round : Request → ApiKey → ℕ → ℕ → W K env → Round
  unfolding leased
  round q key total attempt w =
      let a = allow tick w.buckets key.id key.rate_limit_per_min w.clock in
      let w1 : W K env = record w { buckets = a.1 } in
      let t = try_acquire w1.leases key.id key.max_concurrent in
      let w2 : W K env = record w1 { leases = t.1 } in
      let busy : Round = elim t.0 [
        | none ↦ answered (err (failure 503 Code.all_keys_busy)) w2
        | some lease ↦ leased q key total attempt lease w2
      ] in
      if a.0.allowed
      then busy
      else answered (err (failure_after 503 Code.all_keys_busy (some a.0.retry_after))) w1

  -- the loop; `none` where it runs out of attempts
  unfoldable pub rounds :
      ℕ → Request → ApiKey → ℕ → ℕ → W K env → Option (Result ForwardResult) × W K env
  unfolding round
  rounds zero q key total attempt w = (none, w)
  rounds (suc n) q key total attempt w = elim (round q key total attempt w) [
    | answered r w' ↦ (some r, w')
    | retry w' ↦ rounds n q key total (attempt + 1) w'
  ]
