-- ===== src/Forwarder/Served.antt =====
-- One turn of the loop over the pool in app/core/forwarder.py: its lease and its request.
use fcam_gateway.Prelude.{
  ℕ, ◌≡◌, refl, ap, false, Option, none, some, ◌∷◌, Bool-cases, inl, inr, elem,
}
use fcam_gateway.Prelude.Dict.{Dict}
use fcam_gateway.Models.{ApiKey, Session, Result, ok, err}
use fcam_gateway.RateLimit.{Verdict, Bucket, allow}
use fcam_gateway.Concurrency.{States, Lease, current, try_acquire, release}
use fcam_gateway.Concurrency.Accounting.{Restores, acquire-release}
use fcam_gateway.Forwarder.{KeyPoolApi, Choice, Env}
use fcam_gateway.Forwarder.Marks.{W}
use fcam_gateway.Forwarder.Shared.{Request, send}
use fcam_gateway.Forwarder.Pinned.{tick}
use fcam_gateway.Forwarder.Rotation.{
  Locals, Turn, answered, again, leased, skip, with_key, turn, select_failed, remaining_seconds,
}
use fcam_gateway.Forwarder.Frame.{disable_decrypt_failed-Frame}
use fcam_gateway.Forwarder.Balance.{give_back-At}
use fcam_gateway.Forwarder.Ends.{Switched, TurnServed, At-Switched, At-sent, replied-Served}

module _ (K : KeyPoolApi) (env : Env) where
  leased-TurnServed :
      (q : Request) (total : ℕ) (l : Locals) (key : ApiKey) (lease : Lease) (w w0 : W K env)
      → elem key.id l.tried ≡ false
      → ((k : ℕ) → current (release w.leases lease).1 k ≡ current w0.leases k)
      → w.sent ≡ w0.sent
      → TurnServed K env l w0 (leased K env q total l key lease w)
  unfolding leased send
  leased-TurnServed q total l key lease w w0 u c n =
      elim (Bool-cases (env.decrypts key.ciphertext)) [
        | inl e ↦ rw e (
            replied-Served K env q total l key lease w0 (send K env w key) u c
              (ap (λ s. key.id ∷ s) n))
        | inr e ↦ rw e (
            At-Switched K env key l _ u refl refl c (
              At-sent K env n
                (give_back-At K env lease (disable_decrypt_failed-Frame K env w key.id))))
      ]

  skip-Switched :
      (l : Locals) (key : ApiKey) (w w' : W K env)
      → elem key.id l.tried ≡ false
      → ((k : ℕ) → current w'.leases k ≡ current w.leases k)
      → w'.sent ≡ w.sent
      → Switched K env l (skip K env l key) w w'
  skip-Switched l key w w' u c n = record {
    counts = c;
    key = key.id;
    untried = u;
    tried = refl;
    requests = inl (n, refl);
  }

  acquired-TurnServed :
      (q : Request) (total : ℕ) (l : Locals) (key : ApiKey) (w w1 : W K env)
      (t : Option Lease × States)
      → elem key.id l.tried ≡ false
      → w1.sent ≡ w.sent
      → Restores w.leases t
      → let w2 : W K env = record w1 { leases = t.1 } in
        TurnServed K env l w (elim t.0 [
          | none ↦ again (skip K env l key) w2
          | some lease ↦ leased K env q total l key lease w2
        ])
  acquired-TurnServed q total l key w w1 (none, states) u n t =
      skip-Switched l key w _ u (λ k. (t k).1 refl) n
  acquired-TurnServed q total l key w w1 (some lease, states) u n t =
      leased-TurnServed q total l key lease (record w1 { leases = states }) w u
        (λ k. (t k).0 lease refl) n

  last_key-Served :
      (l : Locals) (id : Option ℕ) (w : W K env) (t : Turn K env)
      → TurnServed K env (record l { last_key = id }) w t
      → TurnServed K env l w t
  last_key-Served l id w (answered r w') s = s
  last_key-Served l id w (again l' w') s = record {
    counts = s.counts;
    key = s.key;
    untried = s.untried;
    tried = s.tried;
    requests = s.requests;
  }

  with_key-Served :
      (q : Request) (total : ℕ) (l : Locals) (key : ApiKey) (w : W K env)
      → elem key.id l.tried ≡ false
      → TurnServed K env l w (with_key K env q total l key w)
  unfolding with_key
  with_key-Served q total l key w u = elim (Bool-cases bucket.0.allowed) [
    | inl e ↦ rw e (
        last_key-Served l (some key.id) w _ (
          acquired-TurnServed q total (record l { last_key = some key.id }) key w
            (record w { buckets = bucket.1 }) (try_acquire w.leases key.id key.max_concurrent) u
            refl (λ k. acquire-release w.leases key.id key.max_concurrent k)))
    | inr e ↦ rw e (
        last_key-Served l (some key.id) w
          (again (skip K env (record l { last_key = some key.id }) key)
            (record w { buckets = bucket.1 }))
          (skip-Switched (record l { last_key = some key.id }) key w _ u (λ k. refl) refl))
  ]
    where
      bucket : Verdict × Dict Bucket
      bucket = allow tick w.buckets key.id key.rate_limit_per_min w.clock

  selected-Served :
      (q : Request) (total : ℕ) (l : Locals) (w : W K env)
      (s : Option (Result ApiKey) × K.Pool × Session)
      → ((key : ApiKey) → s.0 ≡ some (ok key) → elem key.id l.tried ≡ false)
      → let w' : W K env = record w { pool = s.1; session = s.2 } in
        TurnServed K env l w (elim s.0 [
          | none ↦ answered none w'
          | some found ↦ elim found [
            | err f ↦ answered (some (select_failed l f)) w'
            | ok key ↦ with_key K env q total l key w'
          ]
        ])
  selected-Served q total l w (none, p, s) u = record {
    counts = λ k. refl;
    key = 0;
    requests = inl refl;
  }
  selected-Served q total l w (some (err f), p, s) u = record {
    counts = λ k. refl;
    key = 0;
    requests = inl refl;
  }
  selected-Served q total l w (some (ok key), p, s) u =
      moved (with_key K env q total l key (record w { pool = p; session = s }))
        (with_key-Served q total l key _ (u key refl))
    where
      moved :
          (t : Turn K env)
          → TurnServed K env l (record w { pool = p; session = s }) t
          → TurnServed K env l w t
      moved (answered r w') s = record { counts = s.counts; key = s.key; requests = s.requests }
      moved (again l' w') s = record {
        counts = s.counts;
        key = s.key;
        untried = s.untried;
        tried = s.tried;
        requests = s.requests;
      }

  pub turn-Served :
      (q : Request) (total : ℕ) (l : Locals) (w : W K env)
      → TurnServed K env l w (turn K env q total l w)
  unfolding turn
  turn-Served q total l w =
      selected-Served q total l w (K.select choice w.pool w.session)
        (λ key e. K.select_untried choice w.pool w.session key e)
    where
      choice : Choice
      choice = record {
        provider = q.provider;
        exclude = l.tried;
        now = w.clock;
        buckets = w.buckets;
        cooldown = remaining_seconds K env w;
      }
