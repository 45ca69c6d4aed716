-- ===== src/Forwarder/KeyTest.antt =====
-- `Forwarder.test_key` and `_test_key_exa` of app/core/forwarder.py: one key is tried at the upstream
-- and marked by what comes back.
--
-- What the upstream answers depends on the path too: it is a parameter here. The latency in the
-- result is left out.
pub mod Alike
pub mod Tested
pub mod Requests
use text.Mathlib.Text.{◌==◌ as str_eq}
use fcam_gateway.Prelude.{
  ℕ, ◌+◌, Bool, true, false, not, Option, none, some, List, [], ◌∷◌, leb, ◌==◌, if◌then◌else◌, elem,
  length, String,
}
use fcam_gateway.Prelude.Text.{codes}
use fcam_gateway.Models.{ApiKey, Status, Result, ok, raise, Code}
use fcam_gateway.Forwarder.{
  KeyPoolApi, Env, Response, Reply, timeout, http_error, response, Exchange,
}
use fcam_gateway.Forwarder.Outcome.{
  Outcome, fine, credit, rate_limit, invalid_key, upstream_5xx, passthrough, classify, is_2xx,
  cooldown_for,
}
use fcam_gateway.Forwarder.Marks.{
  W, row, mark_active, mark_cooling, disable_key, disable_decrypt_failed, record_failure,
}
use fcam_gateway.Forwarder.Shared.{has_base_url}

-- `KeyTestResult`
pub record KeyTestResult : Type 0 where
  pub ok : Bool
  pub upstream_status_code : Option ℕ
  pub observed_status : Option Status
  pub observed_cooldown_until : Option ℕ

-- the paths tried, by the version at the end of the configured base URL
unfoldable pub candidates : Option String → String × List String
candidates none = ("/v2/scrape", "/v1/scrape" ∷ [])
candidates (some version) =
    if str_eq version "v1"
    then ("/v1/scrape", "/v2/scrape" ∷ [])
    else ("/v2/scrape", "/v1/scrape" ∷ [])

abbrev pub is_invalid : Outcome → Bool
is_invalid invalid_key = true
is_invalid fine = false
is_invalid credit = false
is_invalid rate_limit = false
is_invalid upstream_5xx = false
is_invalid passthrough = false

-- `resp.status_code in {404, 405}`
abbrev pub is_missing : ℕ → Bool
is_missing status = elem status (404 ∷ 405 ∷ [])

-- the upstream: the answer to the n-th request, at a path, with a key
abbrev pub Upstream : Type 0
Upstream = String → ℕ → ApiKey → Exchange

-- `key.provider or "firecrawl"`
unfoldable pub provider_of : ApiKey → String
provider_of key = if str_eq key.provider "" then "firecrawl" else key.provider

module _ (K : KeyPoolApi) (env : Env) (upstream : Upstream) where
  -- `client_http.request`
  unfoldable pub ask : String → ApiKey → W K env → Reply × W K env
  ask path key w =
      let x = upstream path (length w.sent) key in
      (x.reply, record w { sent = key.id ∷ w.sent; clock = w.clock + x.elapsed })

  -- the loop over the candidates, from a path on
  unfoldable pub ask_paths : String → List String → ApiKey → W K env → Reply × W K env
  unfolding ask
  ask_paths path [] key w = ask path key w
  ask_paths path (next ∷ rest) key w =
      let r = ask path key w in
      let more = ask_paths next rest key r.1 in
      elim r.0 [
        | timeout ↦ r
        | http_error ↦ r
        | response x ↦ if is_missing x.status then more else r
      ]

  -- `KeyTestResult(...)`, with the row as it is now
  unfoldable pub result : Bool → Option ℕ → ℕ → W K env → KeyTestResult
  result passed status id w = record {
    ok = passed;
    upstream_status_code = status;
    observed_status = elim (row K env w id) [ none ↦ none | some k ↦ some k.status ];
    observed_cooldown_until = elim (row K env w id) [ none ↦ none | some k ↦ k.cooldown_until ];
  }

  -- the cooldown that a 429 asks for
  unfoldable pub cooled : Response → ℕ → W K env → W K env
  cooled r id w = mark_cooling K env w id (cooldown_for r.retry_after env.config.cooldown_seconds)

  unfoldable pub broke : Response → ℕ → W K env → W K env
  broke r id w = record_failure K env w id (codes "upstream_5xx") (some r.status)

  -- the marks of `test_key`: the first that fits, and no other
  unfoldable pub judge : Response → ℕ → W K env → W K env
  unfolding cooled broke
  judge r id w =
      if is_2xx r.status
      then mark_active K env w id
      else if r.status == 429
      then cooled r id w
      else if is_invalid (classify r)
      then disable_key K env w id
      else if leb 500 r.status
      then broke r id w
      else w

  -- the marks of `_test_key_exa`: behind a 2xx, all that fit, one after the other
  unfoldable pub judge_exa : Response → ℕ → W K env → W K env
  unfolding cooled broke
  judge_exa r id w =
      let w1 = if r.status == 429 then cooled r id w else w in
      let w2 = if is_invalid (classify r) then disable_key K env w1 id else w1 in
      let w3 = if leb 500 r.status then broke r id w2 else w2 in
      if is_2xx r.status then mark_active K env w id else w3

  -- what follows the reply
  unfoldable pub conclude :
      (Response → ℕ → W K env → W K env) → ℕ → Reply × W K env → KeyTestResult × W K env
  unfolding result
  conclude marks id (timeout, w) =
      let w' = record_failure K env w id (codes "timeout") none in (result false none id w', w')
  conclude marks id (http_error, w) =
      let w' = record_failure K env w id (codes "http_error") none in (result false none id w', w')
  conclude marks id (response r, w) =
      let w' = marks r id w in (result (is_2xx r.status) (some r.status) id w', w')

  -- the body that both share: the key decrypted, the base URL looked up, the paths asked in turn
  unfoldable pub try_key :
      String
      → String × List String
      → (Response → ℕ → W K env → W K env)
      → ApiKey
      → W K env
      → Result KeyTestResult × W K env
  unfolding conclude ask_paths result
  try_key provider paths marks key w =
      let out = disable_decrypt_failed K env w key.id in
      let end = conclude marks key.id (ask_paths paths.0 paths.1 key w) in
      if not (env.decrypts key.ciphertext)
      then (ok (result false none key.id out), out)
      else if not (has_base_url env.config provider)
      then (raise 400 Code.provider_not_configured, w)
      else (ok end.0, end.1)

  -- `test_key`, with the version of the base URL and the mode asked for
  unfoldable pub test_key :
      Option String → String → ApiKey → W K env → Result KeyTestResult × W K env
  unfolding try_key provider_of judge judge_exa
  test_key version mode key w =
      let provider = provider_of key in
      if not env.has_master_key
      then (raise 503 Code.not_ready, w)
      else if not (str_eq mode "scrape")
      then (raise 400 Code.validation_error, w)
      else if str_eq provider "exa"
      then try_key provider ("/search", []) judge_exa key w
      else try_key provider (candidates version) judge key w
