-- ===== src/Api/Governance.antt =====
-- `enforce_client_governance` of app/api/deps.py: the limits of a client around a request. Today's
-- date and the seconds to the next midnight in the zone of the quota (app/core/time.py) are
-- arguments.
use fcam_gateway.Prelude.{ℕ, Bool, false, not, Option, none, some, ◌==◌, leb, if◌then◌else◌}
use fcam_gateway.Prelude.Dict.{Dict}
use fcam_gateway.Models.{Client, Session, commit, Result, ok, err, raise, failure_after, Code}
use fcam_gateway.RateLimit.{Bucket, allow}
use fcam_gateway.Concurrency.{States, Lease, try_acquire, release}
use fcam_gateway.Forwarder.Pinned.{tick}

-- `config.quota.enable_quota_check`, the date, the seconds, and the time of the monotonic clock
pub record Moment : Type 0 where
  pub enable_quota_check : Bool
  pub today : ℕ
  pub until_midnight : ℕ
  pub now : ℕ

-- what the limits read and write
pub record Gate : Type 0 where
  pub session : Session
  pub buckets : Dict Bucket
  pub leases : States

abbrev pub client_of : Session → Client
client_of s = s.tables.client

-- the client's columns on a new day
abbrev pub new_day : ℕ → Session → Session
new_day today s = record s {
  tables = record s.tables {
    client = record s.tables.client { daily_usage = 0; quota_reset_at = some today };
  };
}

abbrev pub is_date : Option ℕ → ℕ → Bool
is_date none today = false
is_date (some d) today = d == today

-- the quota check, behind the tests whether there is one
unfoldable pub check_quota : Moment → ℕ → Session → Result (Unit {0}) × Session
unfolding commit
check_quota m quota s =
    let dirty = not (is_date (client_of s).quota_reset_at m.today) in
    let s1 = if dirty then new_day m.today s else s in
    let saved = commit s1 in
    if leb quota (client_of s1).daily_usage
    then (
      err (failure_after 429 Code.client_quota_exceeded (some m.until_midnight)),
      if dirty then saved.1 else s1,
    )
    else if not dirty
    then (ok tt, s1)
    else if saved.0
    then (ok tt, saved.1)
    else (raise 503 Code.db_unavailable, saved.1)

-- the part before `yield`
unfoldable pub enter : Moment → Gate → Result Lease × Gate
unfolding check_quota
enter m g =
    let client = client_of g.session in
    let acquired = try_acquire g.leases client.id client.max_concurrent in
    let g1 : Gate = record g { leases = acquired.1 } in
    let bucket = allow tick g1.buckets client.id client.rate_limit_per_min m.now in
    let g2 : Gate = record g1 { buckets = bucket.1 } in
    elim acquired.0 [
      | none ↦ (raise 429 Code.client_concurrency_limited, g1)
      | some lease ↦
          let given_back : States = (release g2.leases lease).1 in
          let quota_of : Option ℕ = if m.enable_quota_check then client.daily_quota else none in
          if not bucket.0.allowed
          then (
            err (failure_after 429 Code.client_rate_limited (some bucket.0.retry_after)),
            record g2 { leases = given_back },
          )
          else elim quota_of [
            | none ↦ (ok lease, g2)
            | some quota ↦
                let checked = check_quota m quota g2.session in
                let g3 : Gate = record g2 { session = checked.1 } in
                elim checked.0 [
                  | ok u ↦ (ok lease, g3)
                  | err f ↦ (err f, record g3 { leases = given_back })
                ]
          ]
    ]

-- the part behind `yield`
unfoldable pub leave : Lease → Gate → Gate
leave lease g = record g { leases = (release g.leases lease).1 }
