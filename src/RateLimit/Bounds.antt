-- ===== src/RateLimit/Bounds.antt =====
-- The bucket of app/core/rate_limit.py: how much passes, and when a refused call may retry.
use native.Mathlib.Nat.{add-mul, div-add-mod', le-div_iff_mul-le, mod-lt, mul-le-mul_right}
use fcam_gateway.Prelude.{
  ℕ, zero, suc, ◌+◌, ◌-◌, ◌*◌, ◌/◌, ◌%◌, max, ◌≤◌, ◌<◌, ◌≡◌, true, false, arith, if◌then◌else◌,
  ◌==◌, Bool-cases, Option-cases, inl, inr, refl, sym,
}
use fcam_gateway.Prelude.Dict.{Dict}
use fcam_gateway.RateLimit.{
  Bucket, token, capacity, refill, wait_for, allow_bucket, peek_bucket, peek, allow, accept,
}

sub-one-mul : (q x : ℕ) → 1 ≤ q → (q - 1) * x + x ≡ q * x
sub-one-mul zero x b = absurd (omega arith)
sub-one-mul (suc q) x b = let e : suc q - 1 ≡ q = omega arith in rw e (omega arith)

-- ceil(n / x)
ceil_bounds :
    (n x : ℕ)
    → 0 < x
    → 0 < n
    → let r = (n + (x - 1)) / x in (n ≤ r * x) × ((r - 1) * x < n) × (1 ≤ r)
ceil_bounds n x p h =
    let q = (n + (x - 1)) / x in
    let e : q * x + (n + (x - 1)) % x ≡ n + (x - 1) = div-add-mod' (n + (x - 1)) x in
    let m : (n + (x - 1)) % x < x = mod-lt (n + (x - 1)) p in
    let b : 1 ≤ q = (le-div_iff_mul-le p).1 (omega arith) in
    let s : (q - 1) * x + x ≡ q * x = sub-one-mul q x b in (omega arith, omega arith, b)

pub split_span : (a b c rate : ℕ) → a ≤ b → b ≤ c → (c - a) * rate ≡ (b - a) * rate + (c - b) * rate
split_span a b c rate h k =
    let e : c - a ≡ (b - a) + (c - b) = omega arith in rw e (add-mul (b - a) (c - b) rate)

pub zero_span : (n rate : ℕ) → (n - n) * rate ≡ 0
zero_span n rate = let e : n - n ≡ 0 = omega arith in rw e (omega arith)

pos_mul : {a b : ℕ} → 0 < a → 0 < b → 0 < a * b
pos_mul p q = grind arith

module _ (second : ℕ) where
  fresh_ok :
      (rate now : ℕ)
      → 0 < rate
      → (allow_bucket second rate now
          (record { tokens = capacity second rate; last_refill = now })).0
        ≡ accept
  unfolding allow_bucket refill
  fresh_ok rate now h = let e : token second ≤ rate * token second = grind arith in ground arith

  buckets_agree :
      (rate now : ℕ) (b : Bucket)
      → peek_bucket second rate now b ≡ (allow_bucket second rate now b).0
  unfolding peek_bucket allow_bucket
  buckets_agree rate now b = ground arith

  -- `peek` answers what `allow` would answer at the same moment, verdict and waiting time.
  pub peek-allow :
      (buckets : Dict Bucket) (key rate now : ℕ)
      → peek second buckets key rate now ≡ (allow second buckets key rate now).0
  unfolding peek allow
  peek-allow buckets key rate now = elim (Bool-cases (rate == 0)) [
    | inl z ↦ rw z refl
    | inr p ↦ elim (Option-cases (buckets key)) [
      | inl e ↦ rw (p, e) (sym (fresh_ok rate now (ground arith)))
      | inr (b, e) ↦ rw (p, e) (buckets_agree rate now b)
    ]
  ]

  -- a call moves at most one token, and what is left came from the refill
  pub allow_bucket_budget :
      (rate now : ℕ) (b : Bucket)
      → let r = allow_bucket second rate now b in
        ((if r.0.allowed then token second else 0) + r.1.tokens
          ≤ b.tokens + (now - b.last_refill) * rate)
        × (r.1.last_refill ≡ now)
        × (r.1.tokens ≤ capacity second rate)
  unfolding allow_bucket refill
  allow_bucket_budget rate now b = ground arith

  wait_bounds :
      (rate tokens : ℕ)
      → 0 < rate * second
      → tokens < token second
      → let w = wait_for second rate tokens in
        (token second ≤ tokens + w * (rate * second))
        × (tokens + (w - 1) * (rate * second) < token second)
        × (1 ≤ w)
  unfolding wait_for
  wait_bounds rate tokens p h =
      let n = token second - tokens in
      let x = rate * second in
      let w = (n + (x - 1)) / x in
      let c : (n ≤ w * x) × ((w - 1) * x < n) × (1 ≤ w) = ceil_bounds n x p (omega arith) in
      let e : max w 1 ≡ w = omega arith in rw e (omega arith, omega arith, c.2)

  refused_state :
      (rate now : ℕ) (b : Bucket)
      → (allow_bucket second rate now b).0.allowed ≡ false
      → let tokens = refill second rate now b in
        (tokens < token second)
        × ((allow_bucket second rate now b).0.retry_after ≡ wait_for second rate tokens)
        × ((allow_bucket second rate now b).1 ≡ record { tokens = tokens; last_refill = now })
  unfolding allow_bucket
  refused_state rate now b h = ground arith

  later_allowed :
      (rate now later tokens : ℕ)
      → 0 < rate
      → let b : Bucket = record { tokens = tokens; last_refill = now } in
        (token second ≤ tokens + (later - now) * rate
          → (allow_bucket second rate later b).0.allowed ≡ true)
        × (tokens + (later - now) * rate < token second
            → (allow_bucket second rate later b).0.allowed ≡ false)
  unfolding allow_bucket refill
  later_allowed rate now later tokens p =
      let e : token second ≤ rate * token second = grind arith in
      (λ h. ground arith, λ h. ground arith)

  -- At a positive rate, a refused call would pass once the answered waiting time is over, and would
  -- not while a second or more of it is left.
  pub retry_exact :
      (rate now later : ℕ) (b : Bucket)
      → 0 < rate
      → 0 < second
      → (allow_bucket second rate now b).0.allowed ≡ false
      → now ≤ later
      → let r = allow_bucket second rate now b in
        (now + r.0.retry_after * second ≤ later
          → (allow_bucket second rate later r.1).0.allowed ≡ true)
        × (later + second ≤ now + r.0.retry_after * second
            → (allow_bucket second rate later r.1).0.allowed ≡ false)
  retry_exact rate now later b p q refused h =
      let s = refused_state rate now b refused in
      let tokens = refill second rate now b in
      let w = wait_bounds rate tokens (pos_mul p q) s.0 in
      let v = wait_for second rate tokens in
      let e : v * (rate * second) ≡ v * second * rate = grind arith in
      let e' : (v - 1) * (rate * second) ≡ (v - 1) * second * rate = grind arith in
      let one : (v - 1) * second + second ≡ v * second = sub-one-mul v second w.2 in
      rw (s.1, s.2)
        (
          λ k. (later_allowed rate now later tokens p).0 (
              omega
                (arith, mul-le-mul_right {m = v * second} {n = later - now} rate (omega arith))),
          λ k. (later_allowed rate now later tokens p).1 (
              omega (
                arith,
                mul-le-mul_right {m = later - now} {n = (v - 1) * second} rate (omega arith),
              )),
        )
