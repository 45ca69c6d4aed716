-- ===== src/Credit/Apply.antt =====
-- What a credit probe leaves behind in the key's row, for app/core/key_pool.py to see.
use fcam_gateway.Prelude.{ℕ, ◌-◌, ◌/◌, ◌≤◌, ◌≡◌, true, false, none, arith}
use fcam_gateway.Models.{ApiKey, is_disabled}
use fcam_gateway.KeyPool.{cooldown_remaining}
use fcam_gateway.KeyPool.Judge.{cooling_seconds}
use fcam_gateway.Credit.{
  RefreshConfig, FetchResult, success, decrypt_failed, invalid, cooling, error, apply_row,
}

module _ (month_start : ℕ → ℕ) (config : RefreshConfig) where
  -- Of a key that was not disabled: a probe that found it invalid or could not decrypt it disables
  -- it, a 429 and a success leave it enabled, and any other failure leaves its row as it was.
  pub apply_row_disables :
      (r : FetchResult) (id now : ℕ) (key : ApiKey)
      → is_disabled key ≡ false
      → (r.kind ≡ decrypt_failed → is_disabled (apply_row month_start config r id now key) ≡ true)
        × (r.kind ≡ invalid → is_disabled (apply_row month_start config r id now key) ≡ true)
        × (r.kind ≡ cooling → is_disabled (apply_row month_start config r id now key) ≡ false)
        × (r.kind ≡ success → is_disabled (apply_row month_start config r id now key) ≡ false)
        × (r.kind ≡ error → apply_row month_start config r id now key ≡ key)
  unfolding apply_row
  apply_row_disables r id now key h = ground arith

  -- A 429 from the credit endpoint ends the cooldown that the key had: from that moment on, unless
  -- the cooldown store knows better, the pool finds no second left to wait.
  pub probe_429_ends_cooldown :
      (r : FetchResult) (id now later : ℕ) (key : ApiKey)
      → r.kind ≡ cooling
      → r.fetched_at ≤ later
      → cooling_seconds (apply_row month_start config r id now key) later none ≡ 0
  unfolding apply_row cooling_seconds cooldown_remaining
  probe_429_ends_cooldown r id now later key k h =
      let e : (r.fetched_at - later) / 1000000 ≡ 0 = omega arith in rw (k, apply_row) e
