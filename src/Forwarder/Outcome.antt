-- ===== src/Forwarder/Outcome.antt =====
-- Attribution of an upstream response in app/core/forwarder.py: to the key or to the request.
use fcam_gateway.Prelude.{
  ℕ, ◌+◌, Bool, true, false, ◌&&◌, ◌||◌, Option, none, some, List, [], ◌∷◌, ◌==◌, leb, ltb,
  if◌then◌else◌, String, elem,
}
use fcam_gateway.Prelude.Text.{contains_any}
use fcam_gateway.Forwarder.{Header, missing, text, negative, seconds, Response}

-- `_parse_retry_after`
unfoldable pub parse_retry_after : Header → Option ℕ
parse_retry_after missing = none
parse_retry_after text = none
parse_retry_after negative = some 0
parse_retry_after (seconds n) = some n

-- `_parse_retry_after(resp.headers) or cooldown_seconds`
unfoldable pub cooldown_for : Header → ℕ → ℕ
unfolding parse_retry_after
cooldown_for header default = elim (parse_retry_after header) [
  | none ↦ default
  | some n ↦ if n == 0 then default else n
]

-- `_SITE_OR_REQUEST_MARKERS`
abbrev pub site_markers : List String
site_markers =
    "do not support this site" ∷ "we do not support this site" ∷ "site is not supported"
    ∷ "unsupported site" ∷ "scrape_all_engines_failed" ∷ "all scraping engines failed"
    ∷ "website is blocking" ∷ "website is down" ∷ "page doesn't exist" ∷ "page does not exist"
    ∷ "requires authentication" ∷ "url is invalid" ∷ "invalid url" ∷ []

-- `_INVALID_KEY_MARKERS`
abbrev pub key_markers : List String
key_markers =
    "invalid token" ∷ "unauthorized: invalid" ∷ "invalid api key" ∷ "invalid key"
    ∷ "api key is invalid" ∷ "api key is missing" ∷ "revoked" ∷ "malformed token" ∷ []

-- `markers` of `_looks_like_credit_error`
abbrev pub credit_markers : List String
credit_markers =
    "insufficient credit" ∷ "insufficient credits" ∷ "no credits" ∷ "out of credits"
    ∷ "credit limit" ∷ "payment required" ∷ "not enough credits" ∷ "exceeded your credit"
    ∷ "credits exhausted" ∷ []

unfoldable pub looks_like_credit_error : Response → Bool
looks_like_credit_error r =
    if r.status == 402
    then true
    else if ltb r.status 400 || leb 500 r.status
    then false
    else contains_any credit_markers r.body

unfoldable pub looks_like_site_or_request_error : Response → Bool
looks_like_site_or_request_error r =
    if contains_any site_markers r.body
    then true
    else elem r.status (400 ∷ 404 ∷ 405 ∷ 408 ∷ 409 ∷ 413 ∷ 414 ∷ 415 ∷ 422 ∷ [])

unfoldable pub looks_like_invalid_key : Response → Bool
looks_like_invalid_key r = if contains_any key_markers r.body then true else r.status == 401

pub data Outcome : Type 0 where
  fine credit rate_limit invalid_key upstream_5xx passthrough : Outcome

abbrev pub is_2xx : ℕ → Bool
is_2xx status = leb 200 status && ltb status 300

-- `classify_upstream_outcome`
unfoldable pub classify : Response → Outcome
unfolding looks_like_credit_error looks_like_invalid_key looks_like_site_or_request_error
classify r =
    if is_2xx r.status
    then fine
    else if looks_like_credit_error r
    then credit
    else if r.status == 429
    then rate_limit
    else if looks_like_invalid_key r
    then invalid_key
    else if looks_like_site_or_request_error r
    then passthrough
    else if leb 500 r.status
    then upstream_5xx
    else passthrough

-- `_client_retry_budget`
unfoldable pub retry_budget : Option ℕ → ℕ → ℕ
retry_budget none provider_max = provider_max + 1
retry_budget (some n) provider_max = n + 1
