-- ===== src/Forwarder/Ends.antt =====
-- One turn of the loop over the pool in app/core/forwarder.py: what its ends owe, and the ends behind a request.
use fcam_gateway.Prelude.{ℕ, ◌+◌, ◌≡◌, refl, ◌∙◌, ap, false, some, List, ◌∷◌, inl, inr, ◌⊎◌, elem}
use fcam_gateway.Models.{ApiKey, err}
use fcam_gateway.Concurrency.{States, Lease, current, release}
use fcam_gateway.Forwarder.{KeyPoolApi, Env, Reply, timeout, http_error, response}
use fcam_gateway.Forwarder.Marks.{W}
use fcam_gateway.Forwarder.Shared.{Request, timed_out, unreachable}
use fcam_gateway.Forwarder.Pinned.{give_back}
use fcam_gateway.Forwarder.Rotation.{Locals, Turn, answered, again, judge_reply}
use fcam_gateway.Forwarder.Frame.{Frame-refl, record_failure-Frame}
use fcam_gateway.Forwarder.Balance.{At, give_back-At}
use fcam_gateway.Forwarder.Turns.{TurnAt, judge_reply-TurnAt}

module _ (K : KeyPoolApi) (env : Env) where
  -- the last turn: the leases are back, and there was one request at most, with a key not yet tried
  pub record Ended (tried : List ℕ) (w w' : W K env) : Type 0 where
    pub counts : (k : ℕ) → current w'.leases k ≡ current w.leases k
    pub key : ℕ
    pub requests : (w'.sent ≡ w.sent) ⊎ ((elem key tried ≡ false) × (w'.sent ≡ key ∷ w.sent))

  -- a turn before another one: the key is now tried, and its request is counted if there was one
  pub record Switched (l l' : Locals) (w w' : W K env) : Type 0 where
    pub counts : (k : ℕ) → current w'.leases k ≡ current w.leases k
    pub key : ℕ
    pub untried : elem key l.tried ≡ false
    pub tried : l'.tried ≡ key ∷ l.tried
    pub requests :
        ((w'.sent ≡ w.sent) × (l'.upstream_attempts ≡ l.upstream_attempts))
        ⊎ ((w'.sent ≡ key ∷ w.sent) × (l'.upstream_attempts ≡ l.upstream_attempts + 1))

  abbrev pub TurnServed : Locals → W K env → Turn K env → Type 0
  TurnServed l w (answered r w') = Ended l.tried w w'
  TurnServed l w (again l' w') = Switched l l' w w'

  -- with the response counted
  TurnAt-Served :
      (total : ℕ) (key : ApiKey) (l l1 : Locals) (s : States) (w : W K env) (t : Turn K env)
      → elem key.id l.tried ≡ false
      → l1.tried ≡ l.tried
      → l1.upstream_attempts ≡ l.upstream_attempts + 1
      → ((k : ℕ) → current s k ≡ current w.leases k)
      → TurnAt K env total key.id l1 s (key.id ∷ w.sent) t
      → TurnServed l w t
  TurnAt-Served total key l l1 s w (answered r w') u e n c a = record {
    counts = λ k. ap (λ s. current s k) a.leases ∙ c k;
    key = key.id;
    requests = inr (u, a.requests);
  }
  TurnAt-Served total key l l1 s w (again l' w') u e n c a = record {
    counts = λ k. ap (λ s. current s k) a.1.leases ∙ c k;
    key = key.id;
    untried = u;
    tried = a.0.tried ∙ ap (λ l. key.id ∷ l) e;
    requests = inr (a.1.requests, a.0.attempts ∙ n);
  }

  At-Ended :
      (key : ApiKey) (l : Locals) {s : States} {w w' : W K env}
      → elem key.id l.tried ≡ false
      → ((k : ℕ) → current s k ≡ current w.leases k)
      → At K env s (key.id ∷ w.sent) w'
      → Ended l.tried w w'
  At-Ended key l u c a = record {
    counts = λ k. ap (λ s. current s k) a.leases ∙ c k;
    key = key.id;
    requests = inr (u, a.requests);
  }

  -- a turn that goes to the next key without a request
  pub At-Switched :
      (key : ApiKey) (l l' : Locals) {s : States} {w w' : W K env}
      → elem key.id l.tried ≡ false
      → l'.tried ≡ key.id ∷ l.tried
      → l'.upstream_attempts ≡ l.upstream_attempts
      → ((k : ℕ) → current s k ≡ current w.leases k)
      → At K env s w.sent w'
      → Switched l l' w w'
  At-Switched key l l' u e n c a = record {
    counts = λ k. ap (λ s. current s k) a.leases ∙ c k;
    key = key.id;
    untried = u;
    tried = e;
    requests = inl (a.requests, n);
  }

  pub At-sent :
      {s : States} {sent sent' : List ℕ} {w : W K env}
      → sent ≡ sent'
      → At K env s sent w
      → At K env s sent' w
  At-sent n a = record { leases = a.leases; requests = a.requests ∙ n }

  pub replied-Served :
      (q : Request) (total : ℕ) (l : Locals) (key : ApiKey) (lease : Lease) (w : W K env)
      (x : Reply × W K env)
      → elem key.id l.tried ≡ false
      → ((k : ℕ) → current (release x.1.leases lease).1 k ≡ current w.leases k)
      → x.1.sent ≡ key.id ∷ w.sent
      → TurnServed l w (elim x.0 [
        | timeout ↦
            (let e = timed_out K env x.1 key.id in
              answered (some (err e.0)) (give_back K env lease e.1))
        | http_error ↦
            (let e = unreachable K env x.1 key.id in
              answered (some (err e.0)) (give_back K env lease e.1))
        | response r ↦
            judge_reply K env q total
              (record l {
                last_status = some r.status;
                upstream_attempts = l.upstream_attempts + 1;
              })
              key
              r
              (give_back K env lease x.1)
      ])
  unfolding timed_out unreachable
  replied-Served q total l key lease w (timeout, w') u c n =
      At-Ended key l u c
        (At-sent n (give_back-At K env lease (record_failure-Frame K env w' key.id _ _)))
  replied-Served q total l key lease w (http_error, w') u c n =
      At-Ended key l u c
        (At-sent n (give_back-At K env lease (record_failure-Frame K env w' key.id _ _)))
  replied-Served q total l key lease w (response r, w') u c n =
      TurnAt-Served total key l _ _ w _ u refl refl c (
        judge_reply-TurnAt K env q total _ key r
          (At-sent n (give_back-At K env lease (Frame-refl K env w'))))
