-- ===== src/Api/Sticky.antt =====
-- app/api/firecrawl_v2_compat.py: a resource is asked for with the key that created it.
use fcam_gateway.Prelude.{ℕ, ◌++◌, ◌≤◌, ◌≡◌, true, is_some, replicate}
use fcam_gateway.Idempotency.{Codec, Settings, Reply}
use fcam_gateway.Forwarder.{KeyPoolApi, Env}
use fcam_gateway.Forwarder.Outcome.{retry_budget}
use fcam_gateway.Forwarder.Shared.{provider_max_retries}
use fcam_gateway.Api.Pipeline.{Target, Reader, Gateway, Step, client}

module _ (K : KeyPoolApi) (env : Env) (C : Codec) (reader : Reader C) (settings : Settings) where
  abbrev G : Type 0
  G = Gateway K env C reader settings

  abbrev S : Type 0 → Type 0
  S = Step K env C reader settings

  -- all the requests of a run went out with one key, and it ended
  pub record OnlyBy (key : ℕ) (bound : ℕ) (g : G) (s : S (Reply C)) : Type 0 where
    pub ended : is_some s.0 ≡ true
    pub made : ℕ
    pub few : made ≤ bound
    pub requests : s.1.world.sent ≡ replicate made key ++ g.world.sent

  abbrev pub budget : Target → G → ℕ
  budget t g =
      retry_budget (client K env C reader settings g).max_retries
        (provider_max_retries env.config t.provider)
