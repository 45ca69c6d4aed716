-- ===== src/Forwarder/Failures.antt =====
-- `_record_failure` of app/core/forwarder.py: the count of failures and the cooldown that it ends in.
use fcam_gateway.Prelude.{
  ℕ, ◌+◌, ◌≤◌, ◌<◌, ◌≡◌, refl, true, false, Option, none, some, List, [], ◌∷◌, arith, length, All,
  max, ltb,
}
use fcam_gateway.Models.{ApiKey, Status, commit, assign_key}
use fcam_gateway.Models.Rows.{find_key-assign}
use fcam_gateway.Forwarder.{KeyPoolApi, Env}
use fcam_gateway.Forwarder.Marks.{
  W, micros, is_out, row, save, next_failure, record_failure, mark_active, mark_cooling,
}

module _ (K : KeyPoolApi) (env : Env) where
  -- the stored count after failures at these times
  pub after_failures : Option (ℕ × ℕ) → List ℕ → Option (ℕ × ℕ)
  after_failures stored [] = stored
  after_failures stored (t ∷ ts) = after_failures (some (next_failure K env stored t)) ts

  counted_on :
      (n first : ℕ) (ts : List ℕ)
      → All (λ t. t ≤ first + micros env.config.failure_window_seconds) ts
      → after_failures (some (n, first)) ts ≡ some (n + length ts, first)
  unfolding after_failures next_failure
  counted_on n first [] a = ground arith
  counted_on n first (t ∷ ts) a = ground (arith, counted_on (n + 1) first ts a.1, a.0)

  -- Failures within one window of the first are all counted, from an empty memory.
  pub failures_counted :
      (t : ℕ) (ts : List ℕ)
      → All (λ u. u ≤ t + micros env.config.failure_window_seconds) ts
      → after_failures none (t ∷ ts) ≡ some (length (t ∷ ts), t)
  unfolding after_failures next_failure
  failures_counted t ts a = ground (arith, counted_on 1 t ts a)

  -- a saved assignment, where the commit succeeds
  row-save :
      (w : W K env) (id : ℕ) (f : ApiKey → ApiKey) (key : ApiKey)
      → ((k : ApiKey) → (f k).id ≡ k.id)
      → w.session.commits ≡ []
      → row K env w id ≡ some key
      → row K env (save K env w id f).1 id ≡ some (f key)
  unfolding row save commit assign_key
  row-save w id f key h c r = ground (arith, c, r, find_key-assign id id f w.session.tables.keys h)

  -- Where commits succeed, a failure leaves an enabled key's row alone while the count is below the
  -- threshold, and from the threshold on puts it on cooldown for the configured time, at least a second.
  pub failed_at_threshold :
      (w : W K env) (id : ℕ) (reason : List ℕ) (status : Option ℕ) (key : ApiKey)
      → w.session.commits ≡ []
      → row K env w id ≡ some key
      → is_out key ≡ false
      → let n = (next_failure K env (w.failures id) w.clock).0 in
        let w' = record_failure K env w id reason status in
        (n < env.config.failure_threshold → row K env w' id ≡ some key)
        × (env.config.failure_threshold ≤ n
            → row K env w' id
              ≡ some (record key {
                status = Status.failed;
                cooldown_until = some (w.clock + micros (max env.config.failed_cooldown_seconds 1));
              }))
  unfolding record_failure row
  failed_at_threshold w id reason status key c r o = (
    λ h.
        let e : ltb (next_failure K env (w.failures id) w.clock).0 env.config.failure_threshold
            ≡ true =
          ground arith in
        rw (record_failure, r, o, e) r,
    λ h.
        let e : ltb (next_failure K env (w.failures id) w.clock).0 env.config.failure_threshold
            ≡ false =
          ground arith in
        rw (record_failure, r, o, e) (row-save _ id _ key (λ k. refl) c r),
  )

  -- A key that is inactive or disabled is left as it is: no mark revives it, rests it or counts against it.
  pub out_stays_out :
      (w : W K env) (id cooldown : ℕ) (reason : List ℕ) (status : Option ℕ) (key : ApiKey)
      → row K env w id ≡ some key
      → is_out key ≡ true
      → (mark_active K env w id ≡ w)
        × (mark_cooling K env w id cooldown ≡ w)
        × (record_failure K env w id reason status ≡ w)
  unfolding mark_active mark_cooling record_failure
  out_stays_out w id cooldown reason status key r o =
      (rw (mark_active, r, o) refl, rw (mark_cooling, r, o) refl, rw (record_failure, r, o) refl)
