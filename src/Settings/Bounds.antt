-- ===== src/Settings/Bounds.antt =====
-- app/core/runtime_settings.py: the settings stay within their bounds, whatever the console sends
-- and whatever the file holds.
use fcam_gateway.Prelude.{
  ℕ, ◌≤◌, ◌≡◌, ◌⊎◌, refl, Bool, true, false, Option, none, some, arith, Bool-cases, inl, inr,
  if-elim,
}
use fcam_gateway.Floats.{Floats}
use fcam_gateway.Settings.{
  Entry, absent, null, bad, value, Scheduling, Patch, File, fmin, put, at_least, non_negative,
  unit_interval, patch_scheduling, take_entry, assigned, followed_by, load, read_half_life,
  read_baseline, read_workers, read_pooling, read_batch_size, read_batch_delay, read_check_interval,
  read_retry_delay, read_epsilon,
}

module _ (F : Floats) where
  open F use {Float, of_ℕ, lit, le, lt}

  abbrev pub IsNan : Float → Type 0
  IsNan x = le x x ≡ false

  -- between 0 and 1, or NaN
  abbrev pub InUnit : Float → Type 0
  InUnit x = ((le (of_ℕ 0) x ≡ true) × (le x (of_ℕ 1) ≡ true)) ⊎ IsNan x

  -- a property of an override, where there is one
  abbrev pub Each : {A : Type 0} → (A → Type 0) → Option A → Type 0
  Each P none = Unit
  Each P (some a) = P a

  abbrev pub IsPositive : ℕ → Type 0
  IsPositive n = 1 ≤ n

  -- not negative, or NaN
  abbrev pub IsNonNegative : Float → Type 0
  IsNonNegative x = (le (of_ℕ 0) x ≡ true) ⊎ IsNan x

  pub record IsBounded (s : Scheduling F) : Type 0 where
    pub half_life : Each IsPositive s.freshness_half_life_seconds
    pub baseline : Each IsNonNegative s.unknown_credit_baseline
    pub workers : Each IsPositive s.credit_workers
    pub batch_size : Each IsPositive s.credit_batch_size
    pub check_interval : Each IsPositive s.credit_refresh_check_interval_seconds
    pub retry_delay : Each IsPositive s.credit_retry_delay_minutes
    pub epsilon : Each InUnit s.epsilon_greedy

  at_least-IsPositive : (n : ℕ) → IsPositive (at_least F 1 n)
  at_least-IsPositive n = omega arith

  one_pos : le (of_ℕ 0) (of_ℕ 1) ≡ true
  one_pos = F.of_ℕ_mono 0 1 (omega arith)

  same_le : (n : ℕ) → le (of_ℕ n) (of_ℕ n) ≡ true
  same_le n = F.of_ℕ_mono n n (omega arith)

  -- a number that is brought up to 0
  number_up : (x : Float) → le x x ≡ true → le (of_ℕ 0) (non_negative F x) ≡ true
  number_up x num = elim (Bool-cases (lt x (of_ℕ 0))) [
    | inl h ↦ rw h (same_le 0)
    | inr h ↦ rw h (F.not_lt-le x (of_ℕ 0) num (same_le 0) h)
  ]

  -- NaN is passed through
  nan_up : (x : Float) → IsNan x → non_negative F x ≡ x
  nan_up x nan = rw ((F.nan-not_lt x (of_ℕ 0) nan).0) refl

  non_negative-IsNonNegative : (x : Float) → IsNonNegative (non_negative F x)
  non_negative-IsNonNegative x = elim (Bool-cases (le x x)) [
    | inl num ↦ inl (number_up x num)
    | inr nan ↦ inr (rw (nan_up x nan) nan)
  ]

  number_between : (y : Float) → le y y ≡ true → le (of_ℕ 0) y ≡ true → InUnit (fmin F y (of_ℕ 1))
  number_between y num p = elim (Bool-cases (lt (of_ℕ 1) y)) [
    | inl h ↦ rw h (inl (one_pos, same_le 1))
    | inr h ↦ rw h (inl (p, F.not_lt-le (of_ℕ 1) y (same_le 1) num h))
  ]

  number_kept : (x : Float) → le x x ≡ true → le (non_negative F x) (non_negative F x) ≡ true
  number_kept x num = if-elim (λ y. le y y ≡ true) (lt x (of_ℕ 0)) (same_le 0) num

  unit_interval-InUnit : (x : Float) → InUnit (unit_interval F x)
  unit_interval-InUnit x = elim (Bool-cases (le x x)) [
    | inl num ↦ number_between (non_negative F x) (number_kept x num) (number_up x num)
    | inr nan ↦ inr (rw ((F.nan-not_lt x (of_ℕ 0) nan).0, (F.nan-not_lt x (of_ℕ 1) nan).1) nan)
  ]

  module _ {A : Type 0} (P : A → Type 0) (f : A → A) (fits : (a : A) → P (f a)) where
    put-Each : (clear : Bool) (new old : Option A) → Each P old → Each P (put F clear new f old)
    put-Each true new old h = tt
    put-Each false none old h = h
    put-Each false (some a) old h = fits a

    -- the same of a value read from the file, where it was read
    take_entry-Each :
        (clears : Bool) (e : Entry A) (old : Option A)
        → Each P old
        → Each (Each P) (take_entry F clears f e old)
    take_entry-Each clears absent old h = h
    take_entry-Each clears null old h = if-elim (Each P) clears tt h
    take_entry-Each clears bad old h = tt
    take_entry-Each clears (value a) old h = fits a

  assigned-IsBounded :
      {A : Type 0} (P : A → Type 0) (o : Option A) (set : A → Scheduling F) (s : Scheduling F)
      → Each P o
      → ((a : A) → P a → IsBounded (set a))
      → IsBounded s
      → IsBounded (assigned F o set s).0
  assigned-IsBounded P none set s o h b = b
  assigned-IsBounded P (some a) set s o h b = h a o

  followed_by-IsBounded :
      (r : Scheduling F × Bool) (next : Scheduling F → Scheduling F × Bool)
      → IsBounded r.0
      → ((s : Scheduling F) → IsBounded s → IsBounded (next s).0)
      → IsBounded (followed_by F r next).0
  followed_by-IsBounded (s, false) next b h = b
  followed_by-IsBounded (s, true) next b h = h s b

  whatever : {A : Type 0} (o : Option A) → Each (λ x. Unit) o
  whatever none = tt
  whatever (some a) = tt

  pub patch_scheduling-IsBounded :
      (p : Patch F) (s : Scheduling F) → IsBounded s → IsBounded (patch_scheduling F p s)
  unfolding patch_scheduling
  patch_scheduling-IsBounded p s b = record {
    half_life = put-Each IsPositive (at_least F 1) at_least-IsPositive false _ _ b.half_life;
    baseline =
        put-Each IsNonNegative (non_negative F) non_negative-IsNonNegative false _ _ b.baseline;
    workers = put-Each IsPositive (at_least F 1) at_least-IsPositive _ _ _ b.workers;
    batch_size = put-Each IsPositive (at_least F 1) at_least-IsPositive _ _ _ b.batch_size;
    check_interval = put-Each IsPositive (at_least F 1) at_least-IsPositive _ _ _ b.check_interval;
    retry_delay = put-Each IsPositive (at_least F 1) at_least-IsPositive _ _ _ b.retry_delay;
    epsilon = put-Each InUnit (unit_interval F) unit_interval-InUnit _ _ _ b.epsilon;
  }

  pub load-IsBounded : (d : File F) (s : Scheduling F) → IsBounded s → IsBounded (load F d s).0
  unfolding load
  load-IsBounded d s b =
      let r1 = read_half_life F d s in
      let r2 = followed_by F r1 (read_baseline F d) in
      let r3 = followed_by F r2 (read_workers F d) in
      let r4 = followed_by F r3 (read_pooling F d) in
      let r5 = followed_by F r4 (read_batch_size F d) in
      let r6 = followed_by F r5 (read_batch_delay F d) in
      let r7 = followed_by F r6 (read_check_interval F d) in
      let r8 = followed_by F r7 (read_retry_delay F d) in
      let p1 = half s b in
      let p2 = followed_by-IsBounded r1 (read_baseline F d) p1 base in
      let p3 = followed_by-IsBounded r2 (read_workers F d) p2 work in
      let p4 = followed_by-IsBounded r3 (read_pooling F d) p3 pool in
      let p5 = followed_by-IsBounded r4 (read_batch_size F d) p4 size in
      let p6 = followed_by-IsBounded r5 (read_batch_delay F d) p5 delay in
      let p7 = followed_by-IsBounded r6 (read_check_interval F d) p6 check in
      let p8 = followed_by-IsBounded r7 (read_retry_delay F d) p7 retry in
      let p9 = followed_by-IsBounded r8 (read_epsilon F d) p8 eps in p9
    where
      half : (s : Scheduling F) → IsBounded s → IsBounded (read_half_life F d s).0
      half s b =
          assigned-IsBounded (Each IsPositive) _ (λ v. record s { freshness_half_life_seconds = v })
            s
            (take_entry-Each IsPositive (at_least F 1) at_least-IsPositive false
              d.freshness_half_life_seconds s.freshness_half_life_seconds b.half_life)
            (λ v h. record {
              half_life = h;
              baseline = b.baseline;
              workers = b.workers;
              batch_size = b.batch_size;
              check_interval = b.check_interval;
              retry_delay = b.retry_delay;
              epsilon = b.epsilon;
            })
            b

      base : (s : Scheduling F) → IsBounded s → IsBounded (read_baseline F d s).0
      base s b =
          assigned-IsBounded (Each IsNonNegative) _ (λ v. record s { unknown_credit_baseline = v })
            s
            (take_entry-Each IsNonNegative (non_negative F) non_negative-IsNonNegative false
              d.unknown_credit_baseline s.unknown_credit_baseline b.baseline)
            (λ v h. record {
              half_life = b.half_life;
              baseline = h;
              workers = b.workers;
              batch_size = b.batch_size;
              check_interval = b.check_interval;
              retry_delay = b.retry_delay;
              epsilon = b.epsilon;
            })
            b

      work : (s : Scheduling F) → IsBounded s → IsBounded (read_workers F d s).0
      work s b =
          assigned-IsBounded (Each IsPositive) _ (λ v. record s { credit_workers = v }) s
            (take_entry-Each IsPositive (at_least F 1) at_least-IsPositive true d.credit_workers
              s.credit_workers b.workers)
            (λ v h. record {
              half_life = b.half_life;
              baseline = b.baseline;
              workers = h;
              batch_size = b.batch_size;
              check_interval = b.check_interval;
              retry_delay = b.retry_delay;
              epsilon = b.epsilon;
            })
            b

      pool : (s : Scheduling F) → IsBounded s → IsBounded (read_pooling F d s).0
      pool s b =
          assigned-IsBounded (λ x. Unit) _ (λ v. record s { http_connection_pool_enabled = v }) s
            (whatever _)
            (λ v h. record {
              half_life = b.half_life;
              baseline = b.baseline;
              workers = b.workers;
              batch_size = b.batch_size;
              check_interval = b.check_interval;
              retry_delay = b.retry_delay;
              epsilon = b.epsilon;
            })
            b

      size : (s : Scheduling F) → IsBounded s → IsBounded (read_batch_size F d s).0
      size s b =
          assigned-IsBounded (Each IsPositive) _ (λ v. record s { credit_batch_size = v }) s
            (take_entry-Each IsPositive (at_least F 1) at_least-IsPositive true d.credit_batch_size
              s.credit_batch_size b.batch_size)
            (λ v h. record {
              half_life = b.half_life;
              baseline = b.baseline;
              workers = b.workers;
              batch_size = h;
              check_interval = b.check_interval;
              retry_delay = b.retry_delay;
              epsilon = b.epsilon;
            })
            b

      delay : (s : Scheduling F) → IsBounded s → IsBounded (read_batch_delay F d s).0
      delay s b =
          assigned-IsBounded (λ x. Unit) _ (λ v. record s { credit_batch_delay_seconds = v }) s
            (whatever _)
            (λ v h. record {
              half_life = b.half_life;
              baseline = b.baseline;
              workers = b.workers;
              batch_size = b.batch_size;
              check_interval = b.check_interval;
              retry_delay = b.retry_delay;
              epsilon = b.epsilon;
            })
            b

      check : (s : Scheduling F) → IsBounded s → IsBounded (read_check_interval F d s).0
      check s b =
          assigned-IsBounded (Each IsPositive) _
            (λ v. record s { credit_refresh_check_interval_seconds = v }) s
            (take_entry-Each IsPositive (at_least F 1) at_least-IsPositive true
              d.credit_refresh_check_interval_seconds s.credit_refresh_check_interval_seconds
              b.check_interval)
            (λ v h. record {
              half_life = b.half_life;
              baseline = b.baseline;
              workers = b.workers;
              batch_size = b.batch_size;
              check_interval = h;
              retry_delay = b.retry_delay;
              epsilon = b.epsilon;
            })
            b

      retry : (s : Scheduling F) → IsBounded s → IsBounded (read_retry_delay F d s).0
      retry s b =
          assigned-IsBounded (Each IsPositive) _ (λ v. record s { credit_retry_delay_minutes = v })
            s
            (take_entry-Each IsPositive (at_least F 1) at_least-IsPositive true
              d.credit_retry_delay_minutes s.credit_retry_delay_minutes b.retry_delay)
            (λ v h. record {
              half_life = b.half_life;
              baseline = b.baseline;
              workers = b.workers;
              batch_size = b.batch_size;
              check_interval = b.check_interval;
              retry_delay = h;
              epsilon = b.epsilon;
            })
            b

      eps : (s : Scheduling F) → IsBounded s → IsBounded (read_epsilon F d s).0
      eps s b =
          assigned-IsBounded (Each InUnit) _ (λ v. record s { epsilon_greedy = v }) s
            (take_entry-Each InUnit (unit_interval F) unit_interval-InUnit false d.epsilon_greedy
              s.epsilon_greedy b.epsilon)
            (λ v h. record {
              half_life = b.half_life;
              baseline = b.baseline;
              workers = b.workers;
              batch_size = b.batch_size;
              check_interval = b.check_interval;
              retry_delay = b.retry_delay;
              epsilon = h;
            })
            b
