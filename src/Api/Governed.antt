-- ===== src/Api/Governed.antt =====
-- `enforce_client_governance` of app/api/deps.py: the leases and the daily quota of a client.
use fcam_gateway.Prelude.{
  ℕ, ◌<◌, ◌≡◌, refl, sym, subst, Bool, true, false, not, Option, none, some, arith, leb,
  if◌then◌else◌, if-elim, Bool-cases, inl, inr,
}
use fcam_gateway.Prelude.Dict.{Dict}
use fcam_gateway.Models.{Client, Session, commit, Result, ok, err, raise, failure_after, Code}
use fcam_gateway.RateLimit.{Bucket, Verdict, allow}
use fcam_gateway.Concurrency.{States, Lease, current, try_acquire, release}
use fcam_gateway.Concurrency.Accounting.{Restores, acquire-release}
use fcam_gateway.Forwarder.Pinned.{tick}
use fcam_gateway.Api.Governance.{Moment, Gate, client_of, is_date, check_quota, new_day, enter}

-- the counters are what they were, at once or when the lease is given back
abbrev pub Balanced : States → Result Lease × Gate → Type 0
Balanced s (ok lease, g) = (k : ℕ) → current (release g.leases lease).1 k ≡ current s k
Balanced s (err f, g) = (k : ℕ) → current g.leases k ≡ current s k

-- the count of an admitted client is of today and under the quota
abbrev pub Within : ℕ → ℕ → Result Lease × Gate → Type 0
Within quota today (ok lease, g) =
    ((client_of g.session).daily_usage < quota)
    × ((client_of g.session).quota_reset_at ≡ some today)
Within quota today (err f, g) = Unit

module _ (m : Moment) where
  -- the part of `enter` behind the lease
  abbrev behind : Option ℕ → Verdict × Dict Bucket → Lease → Gate → Result Lease × Gate
  behind quota_of bucket lease g =
      let g2 : Gate = record g { buckets = bucket.1 } in
      let back : States = (release g2.leases lease).1 in
      if not bucket.0.allowed
      then (
        err (failure_after 429 Code.client_rate_limited (some bucket.0.retry_after)),
        record g2 { leases = back },
      )
      else elim quota_of [
        | none ↦ (ok lease, g2)
        | some quota ↦
            let checked = check_quota m quota g2.session in
            let g3 : Gate = record g2 { session = checked.1 } in
            elim checked.0 [ ok u ↦ (ok lease, g3) | err f ↦ (err f, record g3 { leases = back }) ]
      ]

  behind-Balanced :
      (quota_of : Option ℕ) (bucket : Verdict × Dict Bucket) (lease : Lease) (g : Gate) (s : States)
      → ((k : ℕ) → current (release g.leases lease).1 k ≡ current s k)
      → Balanced s (behind quota_of bucket lease g)
  behind-Balanced quota_of bucket lease g s h =
      if-elim (Balanced s) (not bucket.0.allowed) h (rest quota_of)
    where
      g2 : Gate
      g2 = record g { buckets = bucket.1 }

      checked :
          (c : Result (Unit {0}) × Session)
          → Balanced s (elim c.0 [
            | ok u ↦ (ok lease, record g2 { session = c.1 })
            | err f ↦ (
              err f,
              record (record g2 { session = c.1 }) { leases = (release g2.leases lease).1 },
            )
          ])
      checked (ok u, x) = h
      checked (err f, x) = h

      rest :
          (o : Option ℕ)
          → Balanced s (elim o [
            | none ↦ (ok lease, g2)
            | some quota ↦
                let c = check_quota m quota g2.session in
                let g3 : Gate = record g2 { session = c.1 } in
                elim c.0 [
                  | ok u ↦ (ok lease, g3)
                  | err f ↦ (err f, record g3 { leases = (release g2.leases lease).1 })
                ]
          ])
      rest none = h
      rest (some quota) = checked (check_quota m quota g2.session)

  enter-Balanced : (g : Gate) → Balanced g.leases (enter m g)
  unfolding enter
  enter-Balanced g =
      go (try_acquire g.leases client.id client.max_concurrent)
        (λ k. acquire-release g.leases client.id client.max_concurrent k)
    where
      client : Client
      client = client_of g.session

      quota_of : Option ℕ
      quota_of = if m.enable_quota_check then client.daily_quota else none

      bucket : Verdict × Dict Bucket
      bucket = allow tick g.buckets client.id client.rate_limit_per_min m.now

      go :
          (t : Option Lease × States)
          → Restores g.leases t
          → Balanced g.leases (elim t.0 [
            | none ↦ (raise 429 Code.client_concurrency_limited, record g { leases = t.1 })
            | some lease ↦ behind quota_of bucket lease (record g { leases = t.1 })
          ])
      go (none, states) r = λ k. (r k).1 refl
      go (some lease, states) r =
          behind-Balanced quota_of bucket lease (record g { leases = states }) g.leases
            (λ k. (r k).0 lease refl)

  abbrev Fresh : ℕ → Result (Unit {0}) × Session → Type 0
  Fresh quota (ok u, s) =
      ((client_of s).daily_usage < quota) × ((client_of s).quota_reset_at ≡ some m.today)
  Fresh quota (err f, s) = Unit

  is_date_sound : (o : Option ℕ) → is_date o m.today ≡ true → o ≡ some m.today
  is_date_sound none h = cc
  is_date_sound (some d) h = let e : d ≡ m.today = ground (arith, h) in cc

  commit-client : (s : Session) → (commit s).0 ≡ true → client_of (commit s).1 ≡ client_of s
  unfolding commit
  commit-client s h = ground (arith, h)

  committed-Fresh :
      (quota : ℕ) (c : Client) (r : Bool × Session)
      → c.daily_usage < quota
      → c.quota_reset_at ≡ some m.today
      → (r.0 ≡ true → client_of r.1 ≡ c)
      → Fresh quota (if r.0 then (ok tt, r.1) else (raise 503 Code.db_unavailable, r.1))
  committed-Fresh quota c (true, s) u d h = rw (h refl) (u, d)
  committed-Fresh quota c (false, s) u d h = tt

  check_quota-Fresh : (quota : ℕ) (s : Session) → Fresh quota (check_quota m quota s)
  unfolding check_quota
  check_quota-Fresh quota s = elim (Bool-cases (is_date (client_of s).quota_reset_at m.today)) [
    | inl d ↦ elim (Bool-cases (leb quota (client_of s).daily_usage)) [
      | inl l ↦ rw (check_quota, d, l) tt
      | inr l ↦ rw (check_quota, d, l) (ground (arith, l), is_date_sound _ d)
    ]
    | inr d ↦ elim (Bool-cases (leb quota 0)) [
      | inl l ↦ rw (check_quota, d, l) tt
      | inr l ↦
          rw (check_quota, d, l)
            (committed-Fresh quota (client_of (new_day m.today s)) (commit (new_day m.today s))
              (ground (arith, l)) refl (commit-client (new_day m.today s)))
    ]
  ]

  behind-Within :
      (quota : ℕ) (bucket : Verdict × Dict Bucket) (lease : Lease) (g : Gate)
      → Within quota m.today (behind (some quota) bucket lease g)
  behind-Within quota bucket lease g =
      if-elim (Within quota m.today) (not bucket.0.allowed) tt
        (go (check_quota m quota g.session) (check_quota-Fresh quota g.session))
    where
      g2 : Gate
      g2 = record g { buckets = bucket.1 }

      go :
          (c : Result (Unit {0}) × Session)
          → Fresh quota c
          → Within quota m.today (elim c.0 [
            | ok u ↦ (ok lease, record g2 { session = c.1 })
            | err f ↦ (
              err f,
              record (record g2 { session = c.1 }) { leases = (release g2.leases lease).1 },
            )
          ])
      go (ok u, x) h = h
      go (err f, x) h = tt

  enter-Within :
      (g : Gate) (quota : ℕ)
      → m.enable_quota_check ≡ true
      → (client_of g.session).daily_quota ≡ some quota
      → Within quota m.today (enter m g)
  unfolding enter
  enter-Within g quota on has = go (try_acquire g.leases client.id client.max_concurrent)
    where
      client : Client
      client = client_of g.session

      quota_of : Option ℕ
      quota_of = if m.enable_quota_check then client.daily_quota else none

      is_quota : quota_of ≡ some quota
      is_quota = rw on has

      bucket : Verdict × Dict Bucket
      bucket = allow tick g.buckets client.id client.rate_limit_per_min m.now

      go :
          (t : Option Lease × States)
          → Within quota m.today (elim t.0 [
            | none ↦ (raise 429 Code.client_concurrency_limited, record g { leases = t.1 })
            | some lease ↦ behind quota_of bucket lease (record g { leases = t.1 })
          ])
      go (none, states) = tt
      go (some lease, states) =
          let x = record g { leases = states } in
          subst (λ o. Within quota m.today (behind o bucket lease x)) (sym is_quota)
            (behind-Within quota bucket lease x)

-- Whatever limit refuses a request, the client's counters of leases are what they were; and of a
-- request that is admitted they are, once its lease is given back. With the quota check on, the
-- client of an admitted request has used less of its daily quota than all, counted from today.
pub enter_limits :
    (m : Moment) (g : Gate)
    → Balanced g.leases (enter m g)
      × ((quota : ℕ)
          → m.enable_quota_check ≡ true
          → (client_of g.session).daily_quota ≡ some quota
          → Within quota m.today (enter m g))
enter_limits m g = (enter-Balanced m g, enter-Within m g)
