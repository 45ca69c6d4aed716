-- ===== src/Forwarder/Marks.antt =====
-- What app/core/forwarder.py writes about a key, each write with its commit or rollback.
use fcam_gateway.Prelude.{
  ℕ, ◌+◌, ◌-◌, ◌*◌, max, Bool, true, false, not, Option, none, some, ◌==◌, ltb, if◌then◌else◌, List,
  is_some,
}
use fcam_gateway.Prelude.Dict.{insert, erase}
use fcam_gateway.Prelude.Text.{codes}
use fcam_gateway.Models.{
  ApiKey, Client, Status, commit, find_key, assign_key, Result, ok, raise, Code,
}
use fcam_gateway.Credit.Probe.{refresh_after_4xx}
use fcam_gateway.Forwarder.{KeyPoolApi, Env, World}

abbrev pub micros : ℕ → ℕ
micros s = s * 1000000

-- `not key.is_active or key.status == "disabled"`
abbrev pub is_out : ApiKey → Bool
is_out key = elim key.status [ Status.disabled ↦ true | _ ↦ not key.is_active ]

module _ (K : KeyPoolApi) (env : Env) where
  abbrev pub W : Type 0
  W = World K.Pool

  -- a key's row as the session has it
  unfoldable pub row : W → ℕ → Option ApiKey
  row w id = find_key id w.session.tables.keys

  -- an assignment with its commit
  unfoldable pub save : W → ℕ → (ApiKey → ApiKey) → Bool × W
  save w id f = let r = commit (assign_key id f w.session) in (r.0, record w { session = r.1 })

  -- `_mark_active`
  unfoldable pub mark_active : W → ℕ → W
  mark_active w id = elim (row w id) [
    | none ↦ w
    | some key ↦
        if is_out key
        then w
        else (save w id (λ k. record k { status = Status.active; cooldown_until = none })).1
  ]

  -- `RedisCooldownStore.set_cooldown` of app/core/cooldown.py: the moment when the entry expires
  unfoldable pub set_cooldown : W → ℕ → ℕ → W
  set_cooldown w id cooldown =
      if not env.stores_cooldown
      then w
      else if cooldown == 0
      then record w { cooldowns = erase id w.cooldowns }
      else record w { cooldowns = insert id (w.clock + micros cooldown) w.cooldowns }

  -- `_mark_cooling`
  unfoldable pub mark_cooling : W → ℕ → ℕ → W
  unfolding set_cooldown
  mark_cooling w id cooldown = elim (row w id) [
    | none ↦ w
    | some key ↦
        if is_out key
        then w
        else let r = save w id (λ k. record k {
          status = Status.cooling;
          cooldown_until = some (w.clock + micros cooldown);
        }) in
          if r.0 then set_cooldown r.1 id cooldown else r.1
  ]

  -- `_disable_key`
  unfoldable pub disable_key : W → ℕ → W
  disable_key w id =
      (save w id (λ k. record k {
        status = Status.invalid;
        is_active = false;
        next_refresh_at = none;
        cached_remaining_credits = some 0;
      })).1

  -- `_disable_key_decrypt_failed`
  unfoldable pub disable_decrypt_failed : W → ℕ → W
  disable_decrypt_failed w id =
      (save w id (λ k. record k {
        status = Status.decrypt_failed;
        is_active = false;
        next_refresh_at = none;
      })).1

  -- `key.cached_remaining_credits = 0` with its commit
  unfoldable pub no_credits_left : W → ℕ → W
  no_credits_left w id = (save w id (λ k. record k { cached_remaining_credits = some 0 })).1

  -- the count and the first time of the failures in the running window, with one more
  unfoldable pub next_failure : Option (ℕ × ℕ) → ℕ → ℕ × ℕ
  next_failure none now = (1, now)
  next_failure (some (n, first_at)) now =
      if ltb (micros env.config.failure_window_seconds) (now - first_at)
      then (1, now)
      else (n + 1, first_at)

  -- `_record_failure`
  unfoldable pub record_failure : W → ℕ → List ℕ → Option ℕ → W
  unfolding next_failure
  record_failure w id reason status = elim (row w id) [
    | none ↦ w
    | some key ↦
        if is_out key
        then w
        else let next = next_failure (w.failures id) w.clock in
          let noted = record w {
            pool = K.record_failure id reason status w.clock w.pool;
            failures = insert id next w.failures;
          } in
          if ltb next.0 env.config.failure_threshold
          then noted
          else (save noted id (λ k. record k {
            status = Status.failed;
            cooldown_until = some (w.clock + micros (max env.config.failed_cooldown_seconds 1));
          })).1
  ]

  -- the reason `key_4xx_<status>`, which counts by its status alone
  abbrev pub key_4xx : List ℕ
  key_4xx = codes "key_4xx"

  -- `_refresh_credits_on_4xx`
  unfoldable pub refresh_on_4xx : W → ℕ → ℕ → W
  refresh_on_4xx w id status =
      let noted = record w { pool = K.record_failure id key_4xx (some status) w.clock w.pool } in
      elim (row w id) [
        | none ↦ noted
        | some key ↦
            let r =
              refresh_after_4xx env.month_start env.config.refresh env.decrypts (env.probe w.probes)
                w.clock key w.debounce w.session in
            record noted {
              session = r.2;
              debounce = r.1;
              probes = if r.0 then w.probes + 1 else w.probes;
            }
      ]

  -- the client's columns that `_consume_quota_on_success` writes
  abbrev pub use_client : ℕ → Client → Client
  use_client now c = record c {
    daily_usage = if is_some c.daily_quota then c.daily_usage + 1 else c.daily_usage;
    last_used_at = some now;
  }

  -- `_consume_quota_on_success`
  unfoldable pub consume_quota : W → ℕ → Result (Unit {0}) × W
  consume_quota w id =
      let s =
        assign_key id
          (λ k. record k { total_requests = k.total_requests + 1; last_used_at = some w.clock })
          w.session in
      let r =
        commit
          (record s { tables = record s.tables { client = use_client w.clock s.tables.client } }) in
      (if r.0 then ok tt else raise 503 Code.db_unavailable, record w { session = r.1 })
