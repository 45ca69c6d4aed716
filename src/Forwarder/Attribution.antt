-- ===== src/Forwarder/Attribution.antt =====
-- `classify_upstream_outcome` of app/core/forwarder.py: what is held against the key.
use fcam_gateway.Prelude.{◌≤◌, ◌<◌, ◌≡◌, true, false, [], ◌∷◌, arith, elem}
use fcam_gateway.Prelude.Text.{contains_any}
use fcam_gateway.Forwarder.{Response}
use fcam_gateway.Forwarder.Outcome.{
  fine, credit, rate_limit, invalid_key, passthrough, is_2xx, key_markers, credit_markers,
  looks_like_credit_error, looks_like_invalid_key, looks_like_site_or_request_error, classify,
}

-- neither the credits nor the key are named in the body
abbrev pub BlamesNoKey : Response → Type 0
BlamesNoKey r =
    (contains_any credit_markers r.body ≡ false) × (contains_any key_markers r.body ≡ false)

-- A response whose body names neither credits nor a bad key goes by its status: 2xx is fine, 402 a
-- matter of credits, 429 of the rate, 401 of the key, and no other status below 500 is held
-- against the key.
pub classify_by_status :
    (r : Response)
    → BlamesNoKey r
    → (is_2xx r.status ≡ true → classify r ≡ fine)
      × (r.status ≡ 402 → classify r ≡ credit)
      × (r.status ≡ 429 → classify r ≡ rate_limit)
      × (r.status ≡ 401 → classify r ≡ invalid_key)
      × (is_2xx r.status ≡ false
          → elem r.status (401 ∷ 402 ∷ 429 ∷ []) ≡ false
          → r.status < 500
          → classify r ≡ passthrough)
unfolding classify looks_like_credit_error looks_like_invalid_key looks_like_site_or_request_error
classify_by_status r b = (
  λ h. ground arith,
  λ h. ground arith,
  λ h. ground arith,
  λ h. ground arith,
  λ h e l. ground arith,
)

-- A response with a status of 500 or more whose body has one of the markers of an invalid key is
-- put down to the key.
pub server_error_blames_key :
    (r : Response)
    → 500 ≤ r.status
    → contains_any key_markers r.body ≡ true
    → classify r ≡ invalid_key
unfolding classify looks_like_credit_error looks_like_invalid_key
server_error_blames_key r h m = ground arith
