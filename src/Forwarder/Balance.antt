-- ===== src/Forwarder/Balance.antt =====
-- Forwarding with a pinned key in app/core/forwarder.py: the leases it takes and gives back, and the
-- requests it makes.
use fcam_gateway.Prelude.{
  ℕ, ◌-◌, ◌<◌, ◌≡◌, refl, ◌∙◌, ap, Option, none, some, List, ◌∷◌, arith, Bool-cases, inl, inr, ◌⊎◌,
  leb,
}
use fcam_gateway.Prelude.Dict.{Dict}
use fcam_gateway.Models.{ApiKey, Result, ok, err, failure, Code}
use fcam_gateway.RateLimit.{Verdict, Bucket, allow}
use fcam_gateway.Concurrency.{States, Lease, current, try_acquire, release}
use fcam_gateway.Concurrency.Accounting.{Restores, acquire-release}
use fcam_gateway.Forwarder.{KeyPoolApi, Env, Response, Reply, timeout, http_error, response}
use fcam_gateway.Forwarder.Outcome.{
  Outcome, fine, credit, rate_limit, invalid_key, upstream_5xx, passthrough, classify, is_2xx,
}
use fcam_gateway.Forwarder.Marks.{W, refresh_on_4xx}
use fcam_gateway.Forwarder.Shared.{Request, send, timed_out, unreachable, on_success}
use fcam_gateway.Forwarder.Frame.{
  Frame, Frame-refl, mark_cooling-Frame, disable_key-Frame, disable_decrypt_failed-Frame,
  no_credits_left-Frame, record_failure-Frame, refresh_on_4xx-Frame, on_success-Frame,
}
use fcam_gateway.Forwarder.Pinned.{
  Round, answered, retry, result, give_back, pass_on, judge_reply, leased, round, tick,
}

module _ (K : KeyPoolApi) (env : Env) where
  -- the leases and the requests of a world
  pub record At (s : States) (sent : List ℕ) (w : W K env) : Type 0 where
    pub leases : w.leases ≡ s
    pub requests : w.sent ≡ sent

  pub At-Frame :
      {s : States} {sent : List ℕ} {w w' : W K env} → Frame K env w w' → At s sent w → At s sent w'
  At-Frame f a = record { leases = f.leases ∙ a.leases; requests = f.sent ∙ a.requests }

  -- the same of the end of an attempt, which is tried again only where another attempt is left
  abbrev RoundAt : ℕ → ℕ → States → List ℕ → Round K env → Type 0
  RoundAt total attempt s sent (answered r w) = At s sent w
  RoundAt total attempt s sent (retry w) = (attempt < total - 1) × At s sent w

  success-At :
      (key : ApiKey) (r : Response) (total attempt : ℕ) {w : W K env} {s : States} {sent : List ℕ}
      (done : Result (Unit {0}) × W K env)
      → Frame K env w done.1
      → At s sent w
      → RoundAt total attempt s sent (elim done.0 [
        | ok u ↦ answered (ok (result K env key r attempt)) done.1
        | err f ↦ answered (err f) done.1
      ])
  success-At key r total attempt (ok u, w') f a = At-Frame f a
  success-At key r total attempt (err e, w') f a = At-Frame f a

  pass_on-At :
      (q : Request) (key : ApiKey) (r : Response) (total attempt : ℕ) {w : W K env} {s : States}
      {sent : List ℕ}
      → At s sent w
      → RoundAt total attempt s sent (pass_on K env q key r attempt w)
  unfolding pass_on
  pass_on-At q key r total attempt {w} a = elim (Bool-cases (is_2xx r.status)) [
    | inr e ↦ rw e a
    | inl e ↦ rw e (
        success-At key r total attempt (on_success K env w q r key.id)
          (on_success-Frame K env w q r key.id) a)
  ]

  judge_reply-At :
      (q : Request) (key : ApiKey) (total attempt : ℕ) (r : Response) {w : W K env} {s : States}
      {sent : List ℕ}
      → At s sent w
      → RoundAt total attempt s sent (judge_reply K env q key total attempt r w)
  unfolding judge_reply
  judge_reply-At q key total attempt r {w} {s} {sent} a = go (classify r) refl
    where
      probed : (status : ℕ) → At s sent (refresh_on_4xx K env w key.id status)
      probed status = At-Frame (refresh_on_4xx-Frame K env w key.id status) a

      go :
          (c : Outcome)
          → classify r ≡ c
          → RoundAt total attempt s sent (judge_reply K env q key total attempt r w)
      go fine e = rw (judge_reply, e) (pass_on-At q key r total attempt a)
      go passthrough e = rw (judge_reply, e) (pass_on-At q key r total attempt a)
      go credit e =
          rw (judge_reply, e)
            (pass_on-At q key r total attempt
              (At-Frame (no_credits_left-Frame K env _ key.id) (probed r.status)))
      go invalid_key e =
          rw (judge_reply, e) (At-Frame (disable_key-Frame K env _ key.id) (probed r.status))
      go upstream_5xx e = rw (judge_reply, e) (At-Frame (record_failure-Frame K env w key.id _ _) a)
      go rate_limit e = elim (Bool-cases (leb (total - 1) attempt)) [
        | inl b ↦
            rw (judge_reply, e, b) (At-Frame (mark_cooling-Frame K env _ key.id _) (probed 429))
        | inr b ↦
            rw (judge_reply, e, b)
              (ground (arith, b), At-Frame (mark_cooling-Frame K env _ key.id _) (probed 429))
      ]

  -- the leases are back, and there was one request at most, with that key
  pub record Served (id : ℕ) (w w' : W K env) : Type 0 where
    pub counts : (k : ℕ) → current w'.leases k ≡ current w.leases k
    pub requests : (w'.sent ≡ w.sent) ⊎ (w'.sent ≡ id ∷ w.sent)

  pub At-Served :
      {id : ℕ} {s : States} {sent : List ℕ} {w w' : W K env}
      → ((k : ℕ) → current s k ≡ current w.leases k)
      → (sent ≡ w.sent) ⊎ (sent ≡ id ∷ w.sent)
      → At s sent w'
      → Served id w w'
  At-Served c n a = record {
    counts = λ k. ap (λ s. current s k) a.leases ∙ c k;
    requests = elim n [ inl e ↦ inl (a.requests ∙ e) | inr e ↦ inr (a.requests ∙ e) ];
  }

  abbrev pub RoundServed : ℕ → ℕ → ℕ → W K env → Round K env → Type 0
  RoundServed total attempt id w (answered r w') = Served id w w'
  RoundServed total attempt id w (retry w') = (attempt < total - 1) × Served id w w'

  RoundAt-Served :
      (total attempt id : ℕ) (s : States) (sent : List ℕ) (w : W K env) (r : Round K env)
      → ((k : ℕ) → current s k ≡ current w.leases k)
      → (sent ≡ w.sent) ⊎ (sent ≡ id ∷ w.sent)
      → RoundAt total attempt s sent r
      → RoundServed total attempt id w r
  RoundAt-Served total attempt id s sent w (answered r w') c n a = At-Served c n a
  RoundAt-Served total attempt id s sent w (retry w') c n a = (a.0, At-Served c n a.1)

  pub give_back-At :
      (lease : Lease) {w w' : W K env}
      → Frame K env w w'
      → At (release w.leases lease).1 w.sent (give_back K env lease w')
  unfolding give_back
  give_back-At lease f = record {
    leases = ap (λ s. (release s lease).1) f.leases;
    requests = f.sent;
  }

  replied-RoundAt :
      (q : Request) (key : ApiKey) (total attempt : ℕ) (lease : Lease) (x : Reply × W K env)
      → RoundAt total attempt (release x.1.leases lease).1 x.1.sent (elim x.0 [
        | timeout ↦
            (let e = timed_out K env x.1 key.id in answered (err e.0) (give_back K env lease e.1))
        | http_error ↦
            (let e = unreachable K env x.1 key.id in answered (err e.0) (give_back K env lease e.1))
        | response r ↦ judge_reply K env q key total attempt r (give_back K env lease x.1)
      ])
  unfolding timed_out unreachable
  replied-RoundAt q key total attempt lease (timeout, w) =
      give_back-At lease (record_failure-Frame K env w key.id _ _)
  replied-RoundAt q key total attempt lease (http_error, w) =
      give_back-At lease (record_failure-Frame K env w key.id _ _)
  replied-RoundAt q key total attempt lease (response r, w) =
      judge_reply-At q key total attempt r (give_back-At lease (Frame-refl K env w))

  leased-Served :
      (q : Request) (key : ApiKey) (total attempt : ℕ) (lease : Lease) (w w0 : W K env)
      → ((k : ℕ) → current (release w.leases lease).1 k ≡ current w0.leases k)
      → w.sent ≡ w0.sent
      → RoundServed total attempt key.id w0 (leased K env q key total attempt lease w)
  unfolding leased send
  leased-Served q key total attempt lease w w0 c n =
      elim (Bool-cases (env.decrypts key.ciphertext)) [
        | inl e ↦ rw e (
            RoundAt-Served total attempt key.id (release w.leases lease).1 (key.id ∷ w.sent) w0 _ c
              (inr (ap (λ l. key.id ∷ l) n))
              (replied-RoundAt q key total attempt lease (send K env w key)))
        | inr e ↦
            rw e (
              At-Served c (inl n)
                (give_back-At lease (disable_decrypt_failed-Frame K env w key.id)))
      ]

  acquired-Served :
      (q : Request) (key : ApiKey) (total attempt : ℕ) (w w1 : W K env) (t : Option Lease × States)
      → w1.sent ≡ w.sent
      → Restores w.leases t
      → let w2 : W K env = record w1 { leases = t.1 } in
        RoundServed total attempt key.id w (elim t.0 [
          | none ↦ answered (err (failure 503 Code.all_keys_busy)) w2
          | some lease ↦ leased K env q key total attempt lease w2
        ])
  acquired-Served q key total attempt w w1 (none, states) n t = record {
    counts = λ k. (t k).1 refl;
    requests = inl n;
  }
  acquired-Served q key total attempt w w1 (some lease, states) n t =
      leased-Served q key total attempt lease (record w1 { leases = states }) w
        (λ k. (t k).0 lease refl) n

  pub round-Served :
      (q : Request) (key : ApiKey) (total attempt : ℕ) (w : W K env)
      → RoundServed total attempt key.id w (round K env q key total attempt w)
  unfolding round
  round-Served q key total attempt w = elim (Bool-cases bucket.0.allowed) [
    | inl e ↦ rw e (
        acquired-Served q key total attempt w (record w { buckets = bucket.1 })
          (try_acquire w.leases key.id key.max_concurrent) refl
          (λ k. acquire-release w.leases key.id key.max_concurrent k))
    | inr e ↦ rw e (record { counts = λ k. refl; requests = inl refl })
  ]
    where
      bucket : Verdict × Dict Bucket
      bucket = allow tick w.buckets key.id key.rate_limit_per_min w.clock
