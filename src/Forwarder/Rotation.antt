-- ===== src/Forwarder/Rotation.antt =====
-- `Forwarder.forward` of app/core/forwarder.py over the pool: keys are selected one after another
-- until a response is not the key's fault, or the budget is spent.
use fcam_gateway.Prelude.{
  ℕ, zero, suc, ◌+◌, ◌-◌, Bool, true, false, ◌&&◌, Option, none, some, ◌==◌, leb, ltb,
  if◌then◌else◌, List, [], ◌∷◌,
}
use fcam_gateway.Prelude.Text.{codes}
use fcam_gateway.Models.{ApiKey, Result, ok, err, Failure, failure, Code}
use fcam_gateway.RateLimit.{allow}
use fcam_gateway.Concurrency.{Lease, try_acquire}
use fcam_gateway.Forwarder.{KeyPoolApi, Choice, Env, Response, timeout, http_error, response}
use fcam_gateway.Forwarder.Outcome.{
  fine, credit, rate_limit, invalid_key, upstream_5xx, passthrough, classify, is_2xx, cooldown_for,
}
use fcam_gateway.Forwarder.Marks.{
  W, mark_cooling, disable_key, disable_decrypt_failed, no_credits_left, record_failure,
  refresh_on_4xx,
}
use fcam_gateway.Forwarder.Shared.{Request, ForwardResult, send, timed_out, unreachable, on_success}
use fcam_gateway.Forwarder.Pinned.{tick, give_back}

-- the local variables of the loop
pub record Locals : Type 0 where
  pub upstream_attempts : ℕ
  pub retry_count : ℕ
  pub tried : List ℕ
  pub decrypt_failed_seen : Bool
  pub last_status : Option ℕ
  pub last_key : Option ℕ
  pub last_error : Option Response
  pub switches : ℕ

abbrev pub at_start : Locals
at_start = record {
  upstream_attempts = 0;
  retry_count = 0;
  tried = [];
  decrypt_failed_seen = false;
  last_status = none;
  last_key = none;
  last_error = none;
  switches = 0;
}

-- the codes that a failed decryption explains
abbrev pub is_explained : Code → Bool
is_explained code = elim code [
  | Code.no_key_configured ↦ true
  | Code.all_keys_disabled ↦ true
  | Code.no_key_available ↦ true
  | Code.all_keys_no_credits ↦ true
  | _ ↦ false
]

abbrev pub answer : Locals → Response → ℕ → ForwardResult
answer l r count = record {
  answer = r;
  upstream_status = l.last_status;
  api_key_id = l.last_key;
  retry_count = count;
  switches = l.switches;
}

-- what becomes of an error of `select`
unfoldable pub select_failed : Locals → Failure → Result ForwardResult
select_failed l f =
    if l.decrypt_failed_seen && is_explained f.code
    then err (failure 503 Code.key_decrypt_failed)
    else elim l.last_error [
      | none ↦ err f
      | some r ↦ if ltb 0 l.upstream_attempts then ok (answer l r (l.retry_count - 1)) else err f
    ]

-- behind the loop
unfoldable pub gave_up : Locals → Result ForwardResult
gave_up l =
    if l.upstream_attempts == 0 then err (failure 503 Code.all_keys_busy) else elim l.last_error [
      | none ↦ err (failure 503 Code.upstream_unavailable)
      | some r ↦ ok (answer l r (l.retry_count - 1))
    ]

module _ (K : KeyPoolApi) (env : Env) where
  pub data Turn : Type 0 where
    answered : Option (Result ForwardResult) → W K env → Turn
    again : Locals → W K env → Turn

  -- the key is not tried again in this request
  abbrev pub skip : Locals → ApiKey → Locals
  skip l key = record l { tried = key.id ∷ l.tried; retry_count = l.retry_count + 1 }

  -- another key, unless the budget is spent
  unfoldable pub switch : Locals → ApiKey → Response → ℕ → W K env → Turn
  switch l key r total w =
      let l' = record l {
        tried = key.id ∷ l.tried;
        last_error = some r;
        retry_count = l.retry_count + 1;
      } in
      if leb total l.upstream_attempts
      then answered (some (ok (answer l r l.retry_count))) w
      else again l' w

  -- a response that ends the loop
  unfoldable pub pass_on : Request → Locals → ApiKey → Response → W K env → Turn
  pass_on q l key r w =
      if is_2xx r.status
      then (let done = on_success K env w q r key.id in
          elim done.0 [
            | ok u ↦ answered (some (ok (answer l r l.retry_count))) done.1
            | err f ↦ answered (some (err f)) done.1
          ])
      else answered (some (ok (answer l r l.retry_count))) w

  -- `int(resp.status_code) if 400 <= ... < 500 else 429`
  abbrev pub client_status : ℕ → ℕ
  client_status status = if leb 400 status && ltb status 500 then status else 429

  -- the turn from its response on
  unfoldable pub judge_reply : Request → ℕ → Locals → ApiKey → Response → W K env → Turn
  unfolding switch pass_on
  judge_reply q total l key r w = elim (classify r) [
    | rate_limit ↦ switch l key r total (
        mark_cooling K env (refresh_on_4xx K env w key.id (client_status r.status)) key.id
          (cooldown_for r.retry_after env.config.cooldown_seconds))
    | credit ↦
        switch l key r total
          (no_credits_left K env (refresh_on_4xx K env w key.id (client_status r.status)) key.id)
    | invalid_key ↦
        switch l key r total (disable_key K env (refresh_on_4xx K env w key.id r.status) key.id)
    | upstream_5xx ↦
        answered (some (ok (answer l r l.retry_count)))
          (record_failure K env w key.id (codes "upstream_5xx") (some r.status))
    | fine ↦ pass_on q l key r w
    | passthrough ↦ pass_on q l key r w
  ]

  -- the turn under its lease
  unfoldable pub leased : Request → ℕ → Locals → ApiKey → Lease → W K env → Turn
  unfolding judge_reply
  leased q total l key lease w =
      if env.decrypts key.ciphertext
      then (let x = send K env w key in
          elim x.0 [
            | timeout ↦
                (let e = timed_out K env x.1 key.id in
                  answered (some (err e.0)) (give_back K env lease e.1))
            | http_error ↦
                (let e = unreachable K env x.1 key.id in
                  answered (some (err e.0)) (give_back K env lease e.1))
            | response r ↦
                judge_reply q total
                  (record l {
                    last_status = some r.status;
                    upstream_attempts = l.upstream_attempts + 1;
                  })
                  key r (give_back K env lease x.1)
          ])
      else again (record (skip l key) { decrypt_failed_seen = true; switches = l.switches + 1 })
          (give_back K env lease (disable_decrypt_failed K env w key.id))

  -- the turn with its selected key
  unfoldable pub with_key : Request → ℕ → Locals → ApiKey → W K env → Turn
  unfolding leased
  with_key q total l key w =
      let l1 : Locals = record l { last_key = some key.id } in
      let a = allow tick w.buckets key.id key.rate_limit_per_min w.clock in
      let w1 : W K env = record w { buckets = a.1 } in
      let t = try_acquire w1.leases key.id key.max_concurrent in
      let w2 : W K env = record w1 { leases = t.1 } in
      let go : Turn = elim t.0 [
        | none ↦ again (skip l1 key) w2
        | some lease ↦ leased q total l1 key lease w2
      ] in
      if a.0.allowed then go else again (skip l1 key) w1

  -- `RedisCooldownStore.remaining_seconds` of app/core/cooldown.py
  unfoldable pub remaining_seconds : W K env → ℕ → Option ℕ
  remaining_seconds w id = elim (w.cooldowns id) [
    | none ↦ none
    | some until ↦ let ttl = env.ttl until w.clock in if ttl == 0 then none else some ttl
  ]

  -- the body of the loop
  unfoldable pub turn : Request → ℕ → Locals → W K env → Turn
  unfolding with_key select_failed
  turn q total l w =
      let choice : Choice = record {
        provider = q.provider;
        exclude = l.tried;
        now = w.clock;
        buckets = w.buckets;
        cooldown = remaining_seconds w;
      } in
      let s = K.select choice w.pool w.session in
      let w' : W K env = record w { pool = s.1; session = s.2 } in
      elim s.0 [
        | none ↦ answered none w'
        | some found ↦ elim found [
          | err f ↦ answered (some (select_failed l f)) w'
          | ok key ↦ with_key q total l key w'
        ]
      ]

  -- the loop, with `max_selection_tries` turns at most
  unfoldable pub turns :
      ℕ → Request → ℕ → Locals → W K env → Option (Result ForwardResult) × W K env
  unfolding turn gave_up
  turns zero q total l w = (some (gave_up l), w)
  turns (suc n) q total l w =
      let next : Option (Result ForwardResult) × W K env = elim (turn q total l w) [
        | answered r w' ↦ (r, w')
        | again l' w' ↦ turns n q total l' w'
      ] in
      if ltb l.upstream_attempts total then next else (some (gave_up l), w)
