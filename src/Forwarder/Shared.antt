-- ===== src/Forwarder/Shared.antt =====
-- The parts of `Forwarder.forward` in app/core/forwarder.py that both ways to forward share: one
-- request to the upstream, and what follows a response that is the answer.
use text.Mathlib.Text.{◌==◌ as str_eq}
use fcam_gateway.Prelude.{
  ℕ, ◌+◌, ◌-◌, Bool, true, false, ◌&&◌, not, Option, none, some, ◌==◌, if◌then◌else◌, List, ◌∷◌,
  is_some, length, String, length,
}
use fcam_gateway.Prelude.Text.{codes}
use fcam_gateway.Models.{ApiKey, commit, assign_key, Result, ok, err, Failure, failure, Code}
use fcam_gateway.Estimator.{table_cost, cost_table, estimate_credit_cost, normalize_endpoint}
use fcam_gateway.Forwarder.{KeyPoolApi, Config, Env, Response, Reply}
use fcam_gateway.Forwarder.Marks.{W, row, record_failure, consume_quota}

-- the arguments of `forward` that it looks at
pub record Request : Type 0 where
  pub provider : String
  pub path : List ℕ
  pub is_get : Bool
  pub max_retries : Option ℕ

-- `ForwardResult`
pub record ForwardResult : Type 0 where
  pub answer : Response
  pub upstream_status : Option ℕ
  pub api_key_id : Option ℕ
  pub retry_count : ℕ
  pub switches : ℕ

-- `_provider_max_retries`
unfoldable pub provider_max_retries : Config → String → ℕ
provider_max_retries c provider =
    if str_eq provider "firecrawl"
    then c.max_retries
    else elim (c.other_providers provider) [ none ↦ c.max_retries | some p ↦ p.max_retries ]

-- whether `_provider_base_url` returns
unfoldable pub has_base_url : Config → String → Bool
has_base_url c provider =
    if str_eq provider "firecrawl"
    then true
    else elim (c.other_providers provider) [ none ↦ false | some p ↦ p.enabled ]

module _ (K : KeyPoolApi) (env : Env) where
  -- `client_http.request`: the reply, with the request on record and the clock moved on
  unfoldable pub send : W K env → ApiKey → Reply × W K env
  send w key =
      let x = env.upstream (length w.sent) key in
      (x.reply, record w { sent = key.id ∷ w.sent; clock = w.clock + x.elapsed })

  -- the handlers of `httpx.TimeoutException` and `httpx.HTTPError`
  unfoldable pub timed_out : W K env → ℕ → Failure × W K env
  timed_out w id =
      (failure 504 Code.upstream_timeout, record_failure K env w id (codes "timeout") none)

  unfoldable pub unreachable : W K env → ℕ → Failure × W K env
  unreachable w id =
      (failure 503 Code.upstream_unavailable, record_failure K env w id (codes "http_error") none)

  -- the local estimate: the new count, where it is to be changed
  unfoldable pub estimated : Request → Response → ApiKey → Option ℕ
  unfolding normalize_endpoint table_cost estimate_credit_cost
  estimated q r key = elim key.cached_remaining_credits [
    | none ↦ none
    | some old ↦
        let endpoint = normalize_endpoint q.path in
        let new = old - estimate_credit_cost endpoint r.reported in
        if not (env.config.estimation && not q.is_get && is_some (table_cost cost_table endpoint))
        then none
        else if new == old
        then none
        else some new
  ]

  -- `_record_upstream_success`
  unfoldable pub record_success : W K env → ℕ → W K env
  record_success w id = record w { pool = K.record_success id w.pool }

  -- the commit behind a success: with the usage counters, or for the estimate alone
  unfoldable pub settle : W K env → ℕ → Bool → Result (Unit {0}) × W K env
  settle w id credit_changed =
      let committed : W K env = record w { session = (commit w.session).1 } in
      if env.config.count_success
      then consume_quota K env w id
      else if credit_changed
      then (ok tt, committed)
      else (ok tt, w)

  -- `if 200 <= resp.status_code < 300`, to the end of the block
  unfoldable pub on_success : W K env → Request → Response → ℕ → Result (Unit {0}) × W K env
  unfolding settle record_success
  on_success w q r id = elim (row K env w id) [
    | none ↦ (ok tt, w)
    | some key ↦
        let change = estimated q r key in
        let w' : W K env = elim change [
          | none ↦ w
          | some new ↦ record w {
            session =
                assign_key id (λ k. record k { cached_remaining_credits = some new }) w.session;
          }
        ] in
        let done = settle w' id (is_some change) in
        elim done.0 [ ok u ↦ (ok tt, record_success done.1 id) | err f ↦ (err f, done.1) ]
  ]
