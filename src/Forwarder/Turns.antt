-- ===== src/Forwarder/Turns.antt =====
-- One turn of the loop over the pool in app/core/forwarder.py: from the response on.
use fcam_gateway.Prelude.{ℕ, ◌≡◌, refl, some, List, ◌∷◌, Bool-cases, inl, inr, leb}
use fcam_gateway.Models.{ApiKey, Result, ok, err}
use fcam_gateway.Concurrency.{States}
use fcam_gateway.Forwarder.{KeyPoolApi, Env, Response}
use fcam_gateway.Forwarder.Outcome.{
  Outcome, fine, credit, rate_limit, invalid_key, upstream_5xx, passthrough, classify, is_2xx,
}
use fcam_gateway.Forwarder.Marks.{W, refresh_on_4xx}
use fcam_gateway.Forwarder.Shared.{Request, on_success}
use fcam_gateway.Forwarder.Rotation.{
  Locals, Turn, answered, again, answer, switch, pass_on, judge_reply,
}
use fcam_gateway.Forwarder.Frame.{
  Frame, mark_cooling-Frame, disable_key-Frame, no_credits_left-Frame, record_failure-Frame,
  refresh_on_4xx-Frame, on_success-Frame,
}
use fcam_gateway.Forwarder.Balance.{At, At-Frame}

module _ (K : KeyPoolApi) (env : Env) where
  -- the end of a turn with a key: a further turn has the key on its list, and another request left
  pub record IsNext (total : ℕ) (id : ℕ) (l l' : Locals) : Type 0 where
    pub tried : l'.tried ≡ id ∷ l.tried
    pub attempts : l'.upstream_attempts ≡ l.upstream_attempts

  abbrev pub TurnAt : ℕ → ℕ → Locals → States → List ℕ → Turn K env → Type 0
  TurnAt total id l s sent (answered r w) = At K env s sent w
  TurnAt total id l s sent (again l' w) = IsNext total id l l' × At K env s sent w

  switch-At :
      (l : Locals) (key : ApiKey) (r : Response) (total : ℕ) (w : W K env) {s : States}
      {sent : List ℕ}
      → At K env s sent w
      → TurnAt total key.id l s sent (switch K env l key r total w)
  unfolding switch
  switch-At l key r total w a = elim (Bool-cases (leb total l.upstream_attempts)) [
    | inl e ↦ rw e a
    | inr e ↦ rw e (record { tried = refl; attempts = refl }, a)
  ]

  success-TurnAt :
      (l : Locals) (key : ApiKey) (r : Response) (total : ℕ) {w : W K env} {s : States}
      {sent : List ℕ} (done : Result (Unit {0}) × W K env)
      → Frame K env w done.1
      → At K env s sent w
      → TurnAt total key.id l s sent (elim done.0 [
        | ok u ↦ answered (some (ok (answer l r l.retry_count))) done.1
        | err f ↦ answered (some (err f)) done.1
      ])
  success-TurnAt l key r total (ok u, w') f a = At-Frame K env f a
  success-TurnAt l key r total (err e, w') f a = At-Frame K env f a

  pass_on-TurnAt :
      (q : Request) (l : Locals) (key : ApiKey) (r : Response) (total : ℕ) {w : W K env}
      {s : States} {sent : List ℕ}
      → At K env s sent w
      → TurnAt total key.id l s sent (pass_on K env q l key r w)
  unfolding pass_on
  pass_on-TurnAt q l key r total {w} a = elim (Bool-cases (is_2xx r.status)) [
    | inr e ↦ rw e a
    | inl e ↦ rw e (
        success-TurnAt l key r total (on_success K env w q r key.id)
          (on_success-Frame K env w q r key.id) a)
  ]

  pub judge_reply-TurnAt :
      (q : Request) (total : ℕ) (l : Locals) (key : ApiKey) (r : Response) {w : W K env}
      {s : States} {sent : List ℕ}
      → At K env s sent w
      → TurnAt total key.id l s sent (judge_reply K env q total l key r w)
  unfolding judge_reply
  judge_reply-TurnAt q total l key r {w} {s} {sent} a = go (classify r) refl
    where
      probed : (status : ℕ) → At K env s sent (refresh_on_4xx K env w key.id status)
      probed status = At-Frame K env (refresh_on_4xx-Frame K env w key.id status) a

      go :
          (c : Outcome)
          → classify r ≡ c
          → TurnAt total key.id l s sent (judge_reply K env q total l key r w)
      go fine e = rw (judge_reply, e) (pass_on-TurnAt q l key r total a)
      go passthrough e = rw (judge_reply, e) (pass_on-TurnAt q l key r total a)
      go credit e =
          rw (judge_reply, e)
            (switch-At l key r total _
              (At-Frame K env (no_credits_left-Frame K env _ key.id) (probed _)))
      go invalid_key e =
          rw (judge_reply, e)
            (switch-At l key r total _
              (At-Frame K env (disable_key-Frame K env _ key.id) (probed _)))
      go upstream_5xx e =
          rw (judge_reply, e) (At-Frame K env (record_failure-Frame K env w key.id _ _) a)
      go rate_limit e =
          rw (judge_reply, e)
            (switch-At l key r total _
              (At-Frame K env (mark_cooling-Frame K env _ key.id _) (probed _)))
