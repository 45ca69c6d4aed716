-- ===== src/Settings/Reads.antt =====
-- app/core/runtime_settings.py: the file is read as it was written.
use fcam_gateway.Prelude.{ℕ, ◌≡◌, refl, Bool, true, false, Option, none, some, arith, inl, inr}
use fcam_gateway.Floats.{Floats}
use fcam_gateway.Settings.{
  Scheduling, at_least, non_negative, unit_interval, entry, take_entry, load, followed_by,
  read_half_life, read_baseline, read_workers, read_pooling, read_batch_size, read_batch_delay,
  read_check_interval, read_retry_delay, read_epsilon, overrides_dict,
}
use fcam_gateway.Settings.Bounds.{Each, IsPositive, IsNonNegative, InUnit, IsBounded}

module _ (F : Floats) where
  open F use {Float, of_ℕ, lit, le}

  abbrev pub or_start : {A : Type 0} → Option A → Option A → Option A
  or_start none old = old
  or_start (some a) old = some a

  -- the overrides, and where there is none the setting of a new process
  abbrev pub over : Scheduling F → Scheduling F → Scheduling F
  over s t = record {
    freshness_half_life_seconds =
        or_start s.freshness_half_life_seconds t.freshness_half_life_seconds;
    unknown_credit_baseline = or_start s.unknown_credit_baseline t.unknown_credit_baseline;
    credit_workers = or_start s.credit_workers t.credit_workers;
    http_connection_pool_enabled =
        or_start s.http_connection_pool_enabled t.http_connection_pool_enabled;
    credit_batch_size = or_start s.credit_batch_size t.credit_batch_size;
    credit_batch_delay_seconds = or_start s.credit_batch_delay_seconds t.credit_batch_delay_seconds;
    credit_refresh_check_interval_seconds =
        or_start s.credit_refresh_check_interval_seconds t.credit_refresh_check_interval_seconds;
    credit_retry_delay_minutes = or_start s.credit_retry_delay_minutes t.credit_retry_delay_minutes;
    epsilon_greedy = or_start s.epsilon_greedy t.epsilon_greedy;
  }

  taken :
      {A : Type 0} (c : Bool) (P : A → Type 0) (f : A → A) (o old : Option A)
      → ((a : A) → P a → f a ≡ a)
      → Each F P o
      → take_entry F c f (entry F o) old ≡ some (or_start o old)
  taken c P f none old fix h = refl
  taken c P f (some a) old fix h = rw (fix a h) refl

  at_least_same : (n : ℕ) → IsPositive F n → at_least F 1 n ≡ n
  at_least_same n h = ground (arith, h)

  non_negative_same : (x : Float) → IsNonNegative F x → non_negative F x ≡ x
  non_negative_same x (inl h) = rw (F.le-not_lt (of_ℕ 0) x h) refl
  non_negative_same x (inr nan) = rw ((F.nan-not_lt x (of_ℕ 0) nan).0) refl

  unit_interval_same : (x : Float) → InUnit F x → unit_interval F x ≡ x
  unit_interval_same x (inl h) = rw (F.le-not_lt (of_ℕ 0) x h.0, F.le-not_lt x (of_ℕ 1) h.1) refl
  unit_interval_same x (inr nan) =
      rw ((F.nan-not_lt x (of_ℕ 0) nan).0, (F.nan-not_lt x (of_ℕ 1) nan).1) refl

  whatever : {A : Type 0} (o : Option A) → Each F (λ (a : A). Unit) o
  whatever none = tt
  whatever (some a) = tt

  next_true :
      (r : Scheduling F × Bool) (u v : Scheduling F) (next : Scheduling F → Scheduling F × Bool)
      → r ≡ (u, true)
      → next u ≡ (v, true)
      → followed_by F r next ≡ (v, true)
  next_true r u v next e f = rw e f

  module _ (s : Scheduling F) (b : IsBounded F s) where
    half :
        (t : Scheduling F)
        → read_half_life F (overrides_dict F s) t ≡ (
          record t {
            freshness_half_life_seconds =
                or_start s.freshness_half_life_seconds t.freshness_half_life_seconds;
          },
          true,
        )
    unfolding overrides_dict
    half t =
        let e =
          taken false (IsPositive F) (at_least F 1) s.freshness_half_life_seconds
            t.freshness_half_life_seconds at_least_same b.half_life in
        rw e refl

    base :
        (t : Scheduling F)
        → read_baseline F (overrides_dict F s) t ≡ (
          record t {
            unknown_credit_baseline = or_start s.unknown_credit_baseline t.unknown_credit_baseline;
          },
          true,
        )
    unfolding overrides_dict
    base t =
        let e =
          taken false (IsNonNegative F) (non_negative F) s.unknown_credit_baseline
            t.unknown_credit_baseline non_negative_same b.baseline in
        rw e refl

    work :
        (t : Scheduling F)
        → read_workers F (overrides_dict F s) t
          ≡ (record t { credit_workers = or_start s.credit_workers t.credit_workers }, true)
    unfolding overrides_dict
    work t =
        let e =
          taken true (IsPositive F) (at_least F 1) s.credit_workers t.credit_workers at_least_same
            b.workers in
        rw e refl

    pool :
        (t : Scheduling F)
        → read_pooling F (overrides_dict F s) t ≡ (
          record t {
            http_connection_pool_enabled =
                or_start s.http_connection_pool_enabled t.http_connection_pool_enabled;
          },
          true,
        )
    unfolding overrides_dict
    pool t =
        let e =
          taken true (λ (x : Bool). Unit) (λ x. x) s.http_connection_pool_enabled
            t.http_connection_pool_enabled (λ a h. refl) (whatever _) in
        rw e refl

    size :
        (t : Scheduling F)
        → read_batch_size F (overrides_dict F s) t ≡ (
          record t { credit_batch_size = or_start s.credit_batch_size t.credit_batch_size },
          true,
        )
    unfolding overrides_dict
    size t =
        let e =
          taken true (IsPositive F) (at_least F 1) s.credit_batch_size t.credit_batch_size
            at_least_same b.batch_size in
        rw e refl

    delay :
        (t : Scheduling F)
        → read_batch_delay F (overrides_dict F s) t ≡ (
          record t {
            credit_batch_delay_seconds =
                or_start s.credit_batch_delay_seconds t.credit_batch_delay_seconds;
          },
          true,
        )
    unfolding overrides_dict
    delay t =
        let e =
          taken true (λ (x : ℕ). Unit) (at_least F 0) s.credit_batch_delay_seconds
            t.credit_batch_delay_seconds (λ a h. omega arith) (whatever _) in
        rw e refl

    check :
        (t : Scheduling F)
        → read_check_interval F (overrides_dict F s) t ≡ (
          record t {
            credit_refresh_check_interval_seconds =
                or_start s.credit_refresh_check_interval_seconds
                  t.credit_refresh_check_interval_seconds;
          },
          true,
        )
    unfolding overrides_dict
    check t =
        let e =
          taken true (IsPositive F) (at_least F 1) s.credit_refresh_check_interval_seconds
            t.credit_refresh_check_interval_seconds at_least_same b.check_interval in
        rw e refl

    retry :
        (t : Scheduling F)
        → read_retry_delay F (overrides_dict F s) t ≡ (
          record t {
            credit_retry_delay_minutes =
                or_start s.credit_retry_delay_minutes t.credit_retry_delay_minutes;
          },
          true,
        )
    unfolding overrides_dict
    retry t =
        let e =
          taken true (IsPositive F) (at_least F 1) s.credit_retry_delay_minutes
            t.credit_retry_delay_minutes at_least_same b.retry_delay in
        rw e refl

    eps :
        (t : Scheduling F)
        → read_epsilon F (overrides_dict F s) t
          ≡ (record t { epsilon_greedy = or_start s.epsilon_greedy t.epsilon_greedy }, true)
    unfolding overrides_dict
    eps t =
        let e =
          taken false (InUnit F) (unit_interval F) s.epsilon_greedy t.epsilon_greedy
            unit_interval_same b.epsilon in
        rw e refl

    -- what is written is read again
    pub load-overrides_dict : (t : Scheduling F) → load F (overrides_dict F s) t ≡ (over s t, true)
    unfolding load
    load-overrides_dict t =
        let d = overrides_dict F s in
        let r1 = read_half_life F d t in
        let r2 = followed_by F r1 (read_baseline F d) in
        let r3 = followed_by F r2 (read_workers F d) in
        let r4 = followed_by F r3 (read_pooling F d) in
        let r5 = followed_by F r4 (read_batch_size F d) in
        let r6 = followed_by F r5 (read_batch_delay F d) in
        let r7 = followed_by F r6 (read_check_interval F d) in
        let r8 = followed_by F r7 (read_retry_delay F d) in
        let t1 : Scheduling F = record t {
          freshness_half_life_seconds =
              or_start s.freshness_half_life_seconds t.freshness_half_life_seconds;
        } in
        let t2 : Scheduling F = record t1 {
          unknown_credit_baseline = or_start s.unknown_credit_baseline t.unknown_credit_baseline;
        } in
        let t3 : Scheduling F = record t2 {
          credit_workers = or_start s.credit_workers t.credit_workers;
        } in
        let t4 : Scheduling F = record t3 {
          http_connection_pool_enabled =
              or_start s.http_connection_pool_enabled t.http_connection_pool_enabled;
        } in
        let t5 : Scheduling F = record t4 {
          credit_batch_size = or_start s.credit_batch_size t.credit_batch_size;
        } in
        let t6 : Scheduling F = record t5 {
          credit_batch_delay_seconds =
              or_start s.credit_batch_delay_seconds t.credit_batch_delay_seconds;
        } in
        let t7 : Scheduling F = record t6 {
          credit_refresh_check_interval_seconds =
              or_start s.credit_refresh_check_interval_seconds
                t.credit_refresh_check_interval_seconds;
        } in
        let t8 : Scheduling F = record t7 {
          credit_retry_delay_minutes =
              or_start s.credit_retry_delay_minutes t.credit_retry_delay_minutes;
        } in
        let t9 : Scheduling F = record t8 {
          epsilon_greedy = or_start s.epsilon_greedy t.epsilon_greedy;
        } in
        let q1 = half t in
        let q2 = next_true r1 t1 t2 (read_baseline F d) q1 (base t1) in
        let q3 = next_true r2 t2 t3 (read_workers F d) q2 (work t2) in
        let q4 = next_true r3 t3 t4 (read_pooling F d) q3 (pool t3) in
        let q5 = next_true r4 t4 t5 (read_batch_size F d) q4 (size t4) in
        let q6 = next_true r5 t5 t6 (read_batch_delay F d) q5 (delay t5) in
        let q7 = next_true r6 t6 t7 (read_check_interval F d) q6 (check t6) in
        let q8 = next_true r7 t7 t8 (read_retry_delay F d) q7 (retry t7) in
        let q9 = next_true r8 t8 t9 (read_epsilon F d) q8 (eps t8) in q9
