-- ===== src/RateLimit/History.antt =====
-- app/core/rate_limit.py over any history of calls: how much passes for one key.
use fcam_gateway.Prelude.{
  ℕ, ◌+◌, ◌-◌, ◌*◌, ◌≤◌, ◌<◌, ◌≡◌, List, [], ◌∷◌, Bool, true, false, arith, if◌then◌else◌, ◌==◌,
  none, some, Bool-cases, Option, get_or, inl, inr, refl,
}
use fcam_gateway.Prelude.Dict.{Dict, empty}
use fcam_gateway.RateLimit.{Bucket, token, capacity, allow_bucket, allow}
use fcam_gateway.RateLimit.Bounds.{split_span, zero_span, allow_bucket_budget}

module _ (second : ℕ) where
  -- the calls of a history that `allow` lets through for one key
  pub admitted : ℕ → (ℕ → ℕ) → Dict Bucket → List (ℕ × ℕ) → ℕ
  admitted key rates buckets [] = 0
  admitted key rates buckets ((k, now) ∷ calls) =
      let r = allow second buckets k (rates k) now in
      let rest = admitted key rates r.1 calls in
      if k == key then (if r.0.allowed then rest + 1 else rest) else rest

  -- what a bucket can still pay out until `end`
  abbrev credit : ℕ → ℕ → ℕ → Option Bucket → ℕ
  credit rate t end none = capacity second rate + (end - t) * rate
  credit rate t end (some b) = b.tokens + (end - b.last_refill) * rate

  abbrev Seen : ℕ → Option Bucket → Type 0
  Seen t none = Unit {0}
  Seen t (some b) = b.last_refill ≤ t

  call_credit :
      (rate t now end : ℕ) (o : Option Bucket)
      → Seen t o
      → t ≤ now
      → now ≤ end
      → let fresh : Bucket = record { tokens = capacity second rate; last_refill = now } in
        let r = allow_bucket second rate now (get_or o fresh) in
        (if r.0.allowed then token second else 0) + credit rate now end (some r.1)
        ≤ credit rate t end o
  call_credit rate t now end none u h k =
      let fresh : Bucket = record { tokens = capacity second rate; last_refill = now } in
      let s = allow_bucket_budget second rate now fresh in
      rw s.1 (omega (arith, s.0, zero_span now rate, split_span t now end rate h k))
  call_credit rate t now end (some b) u h k =
      let s = allow_bucket_budget second rate now b in
      rw s.1 (omega (arith, s.0, split_span b.last_refill now end rate (omega arith) k))

  abbrev pub Within : ℕ → List (ℕ × ℕ) → ℕ → Type 0
  Within t [] end = t ≤ end
  Within t ((k, now) ∷ calls) end = (t ≤ now) × Within now calls end

  Within-le : (t end : ℕ) (calls : List (ℕ × ℕ)) → Within t calls end → t ≤ end
  Within-le t end [] w = w
  Within-le t end ((k, now) ∷ calls) w = omega (arith, Within-le now end calls w.1)

  credit_mono :
      (rate t now end : ℕ) (o : Option Bucket)
      → t ≤ now
      → now ≤ end
      → credit rate now end o ≤ credit rate t end o
  credit_mono rate t now end none h k = omega (arith, split_span t now end rate h k)
  credit_mono rate t now end (some b) h k = omega arith

  Seen-later : (t now : ℕ) (o : Option Bucket) → t ≤ now → Seen t o → Seen now o
  Seen-later t now none h u = tt
  Seen-later t now (some b) h u = omega arith

  allow_other :
      (buckets : Dict Bucket) (k key rate now : ℕ)
      → (k == key) ≡ false
      → (allow second buckets k rate now).1 key ≡ buckets key
  unfolding allow
  allow_other buckets k key rate now h = elim (Bool-cases (rate == 0)) [
    | inl z ↦ rw z
    | inr p ↦ rw p (ground arith)
  ]

  -- the bucket that a call of `allow` finds or makes
  abbrev found : Dict Bucket → ℕ → ℕ → ℕ → Bucket
  found buckets key rate now =
      get_or (buckets key) (record { tokens = capacity second rate; last_refill = now })

  allow_self :
      (buckets : Dict Bucket) (rates : ℕ → ℕ) (k key now : ℕ)
      → 0 < rates key
      → k ≡ key
      → let r = allow_bucket second (rates key) now (found buckets key (rates key) now) in
        ((allow second buckets k (rates k) now).0 ≡ r.0)
        × ((allow second buckets k (rates k) now).1 key ≡ some r.1)
  unfolding allow
  allow_self buckets rates k key now p e =
      let z : (rates key == 0) ≡ false = ground arith in
      let s : (key == key) ≡ true = ground arith in rw (e, z) (refl, rw s)

  counted :
      (a : Bool) (rest tok : ℕ)
      → (if a then rest + 1 else rest) * tok ≡ (if a then tok else 0) + rest * tok
  counted true rest tok = omega arith
  counted false rest tok = omega arith

  admitted-le-credit :
      (key : ℕ) (rates : ℕ → ℕ) (buckets : Dict Bucket) (calls : List (ℕ × ℕ)) (t end : ℕ)
      → 0 < rates key
      → Seen t (buckets key)
      → Within t calls end
      → admitted key rates buckets calls * token second ≤ credit (rates key) t end (buckets key)
  unfolding admitted allow
  admitted-le-credit key rates buckets [] t end p u w = omega arith
  admitted-le-credit key rates buckets ((k, now) ∷ calls) t end p u w =
      elim (Bool-cases (k == key)) [
        | inl same ↦
            let e : k ≡ key = ground arith in
            let self = allow_self buckets rates k key now p e in
            let r = allow_bucket second (rates key) now (found buckets key (rates key) now) in
            let end_after = Within-le now end calls w.1 in
            let seen : r.1.last_refill ≤ now = omega (
              arith,
              (allow_bucket_budget second (rates key) now (found buckets key (rates key) now)).1,
            ) in
            let ih = rw self.1 at (
              admitted-le-credit key rates (allow second buckets k (rates k) now).1 calls now end p
                (rw self.1 seen) w.1) in
            rw (same, self.0)
              (omega (
                arith,
                ih,
                call_credit (rates key) t now end (buckets key) u w.0 end_after,
                counted r.0.allowed
                    (admitted key rates (allow second buckets k (rates k) now).1 calls)
                    (token second),
              ))
        | inr other ↦ rw (other) (
            let e = allow_other buckets k key (rates k) now other in
            omega (
              arith,
              credit_mono (rates key) t now end (buckets key) w.0 (Within-le now end calls w.1),
              rw e at (
                  admitted-le-credit key rates (allow second buckets k (rates k) now).1 calls now
                    end p (rw e (Seen-later t now (buckets key) w.0 u)) w.1),
            ))
      ]

  -- Over any history in the order of time, with calls for other keys in between, the calls that pass
  -- for one key of positive rate cost at most a full bucket and
  -- what its rate has added since the start of the history.
  pub admitted_bound :
      (key : ℕ) (rates : ℕ → ℕ) (calls : List (ℕ × ℕ)) (t end : ℕ)
      → 0 < rates key
      → Within t calls end
      → admitted key rates empty calls * token second
        ≤ capacity second (rates key) + (end - t) * rates key
  admitted_bound key rates calls t end p w = admitted-le-credit key rates empty calls t end p tt w
