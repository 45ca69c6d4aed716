-- ===== src/Forwarder/Forward.antt =====
-- `Forwarder.forward` of app/core/forwarder.py: the checks, the pinned key, the pool.
use text.Mathlib.Text.{◌==◌ as str_eq}
use fcam_gateway.Prelude.{ℕ, ◌*◌, max, Bool, ◌&&◌, not, Option, none, some, if◌then◌else◌}
use fcam_gateway.Models.{ApiKey, is_disabled, Result, raise, Code}
use fcam_gateway.Forwarder.{KeyPoolApi, Env}
use fcam_gateway.Forwarder.Outcome.{retry_budget}
use fcam_gateway.Forwarder.Marks.{W, row}
use fcam_gateway.Forwarder.Shared.{Request, ForwardResult, provider_max_retries, has_base_url}
use fcam_gateway.Forwarder.Pinned.{rounds}
use fcam_gateway.Forwarder.Rotation.{at_start, turns}

-- `max_selection_tries`
unfoldable pub selection_tries : ℕ → ℕ
selection_tries total = max (total * 20) 50

-- whether the pinned key may be used
unfoldable pub may_pin : Request → ApiKey → Bool
may_pin q key = not (is_disabled key) && str_eq key.provider q.provider

module _ (K : KeyPoolApi) (env : Env) where
  -- `total_attempts`
  abbrev pub attempts : Request → ℕ
  attempts q = retry_budget q.max_retries (provider_max_retries env.config q.provider)

  -- forwarding over the pool
  unfoldable pub rotate : Request → W K env → Option (Result ForwardResult) × W K env
  unfolding selection_tries
  rotate q w = turns K env (selection_tries (attempts q)) q (attempts q) at_start w

  -- forwarding with one key; the pool is behind the loop
  unfoldable pub pinned : Request → ApiKey → W K env → Option (Result ForwardResult) × W K env
  unfolding rotate
  pinned q key w =
      let r = rounds K env (attempts q) q key (attempts q) 0 w in
      elim r.0 [ none ↦ rotate q r.1 | some answer ↦ (some answer, r.1) ]

  -- `forward`; the second argument is `pinned_api_key_id`. `none` is an error that is no `FcamError`.
  unfoldable pub forward : Request → Option ℕ → W K env → Option (Result ForwardResult) × W K env
  unfolding pinned may_pin
  forward q pin w =
      if not env.has_master_key
      then (some (raise 503 Code.not_ready), w)
      else if not (has_base_url env.config q.provider)
      then (some (raise 400 Code.provider_not_configured), w)
      else elim pin [
        | none ↦ rotate q w
        | some id ↦ elim (row K env w id) [
          | none ↦ rotate q w
          | some key ↦ if may_pin q key then pinned q key w else rotate q w
        ]
      ]
