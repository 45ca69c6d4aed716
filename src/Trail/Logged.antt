-- ===== src/Trail/Logged.antt =====
-- Every answer of app/middleware.py leaves its row in the request log.
use fcam_gateway.Prelude.{
  ℕ, ◌≡◌, refl, sym, ap, subst, Bool, true, ◌||◌, Option, none, some, List, [], ◌∷◌, arith, ltb,
  is_some, if◌then◌else◌, Bool-cases, inl, inr,
}
use fcam_gateway.Prelude.Text.{codes}
use fcam_gateway.Redact.{Patterns}
use fcam_gateway.Trail
use fcam_gateway.Trail.{
  Env, State, Response, Raised, fcam_error, Outcome, responded, raised, is_proxy_path, error_noted,
}
use fcam_gateway.Trail.Log.{
  is_valid_request_id, infer_api_endpoint, captured, maybe_capture_error, RequestLog, Request,
  endpoint_for, row_of, persist_request_log,
}
use fcam_gateway.Trail.Chain.{App, caught, dispatch_errors, id_for, complete, dispatch_id, served}

-- an answer with its row
pub record Logged (a : Response) (rows rows' : List RequestLog) : Type 0 where
  pub row : RequestLog
  pub added : rows' ≡ row ∷ rows
  pub same_id : a.x_request_id ≡ some row.request_id
  pub valid_id : is_valid_request_id row.request_id ≡ true
  pub same_status : row.status_code ≡ a.status_code
  pub explained : (ltb a.status_code 400 || is_some row.error_message) ≡ true

proxy-endpoint :
    (path : List ℕ) → is_proxy_path path ≡ true → is_some (infer_api_endpoint path) ≡ true
unfolding infer_api_endpoint is_proxy_path
proxy-endpoint path h = ground (arith, h)

endpoint-some :
    (s : State) (path : List ℕ) → is_proxy_path path ≡ true → is_some (endpoint_for s path) ≡ true
unfolding endpoint_for
endpoint-some s path h = go s.endpoint
  where
    go :
        (o : Option (List ℕ))
        → is_some (elim o as (λ x. Option (List ℕ)) [
          | none ↦ infer_api_endpoint path
          | some [] ↦ infer_api_endpoint path
          | some (c ∷ cs) ↦ some (c ∷ cs)
        ])
          ≡ true
    go none = proxy-endpoint path h
    go (some []) = proxy-endpoint path h
    go (some (c ∷ cs)) = refl

shown_id :
    (id : List ℕ)
    → is_valid_request_id id ≡ true
    → (elim id as (λ x. List ℕ) [ [] ↦ codes "-" | c ∷ cs ↦ c ∷ cs ]) ≡ id
unfolding is_valid_request_id
shown_id [] h = cc
shown_id (c ∷ cs) h = refl

-- the same id, and an error where there is to be one
abbrev Noted : Response → State → State → Type 0
Noted a s t =
    (t.request_id ≡ s.request_id) × ((ltb a.status_code 400 || is_some t.error_code) ≡ true)

or_true : (b : Bool) → b || true ≡ true
or_true b = ground arith

module _ (env : Env) where
  capture-Noted : (a : Response) (s : State) → Noted a s (maybe_capture_error env a s)
  unfolding maybe_capture_error
  capture-Noted a s = go s.error_code refl
    where
      go :
          (o : Option (List ℕ))
          → s.error_code ≡ o
          → let t : State = elim o [
            | some code ↦ s
            | none ↦ if ltb a.status_code 400 then s else captured env a s
          ] in
            Noted a s t
      go (some code) e = (refl, rw e (or_true (ltb a.status_code 400)))
      go none e = elim (Bool-cases (ltb a.status_code 400)) [
        | inl below ↦ rw below (refl, refl)
        | inr above ↦ rw above (refl, refl)
      ]

  errors-request_id :
      (path : List ℕ) (ctx : Option (List ℕ)) (next : App) (s : State)
      → (next s).1.request_id ≡ s.request_id
      → (dispatch_errors env path ctx next s).1.request_id ≡ s.request_id
  unfolding dispatch_errors caught error_noted
  errors-request_id path ctx next s keeps = go (next s) keeps
    where
      go :
          (x : Outcome × State)
          → x.1.request_id ≡ s.request_id
          → let y : Outcome × State = elim x.0 [
            | responded r ↦ (responded r, x.1)
            | raised e ↦ caught env path ctx e x.1
          ] in
            y.1.request_id ≡ s.request_id
      go (responded r, t) h = h
      go (raised (fcam_error e), t) h = h
      go (raised (Trail.validation_error e), t) h = h
      go (raised (Trail.http_exception n), t) h = h
      go (raised (Trail.unexpected n), t) h = h

module _ (env : Env) (r : Patterns) (q : Request) where
  id_for_valid :
      is_valid_request_id env.new_request_id ≡ true → is_valid_request_id (id_for env r q) ≡ true
  unfolding id_for
  id_for_valid fresh = go q.x_request_id
    where
      go :
          (o : Option (List ℕ))
          → let id : List ℕ = elim o [
            | none ↦ env.new_request_id
            | some id ↦ if is_valid_request_id id then id else env.new_request_id
          ] in
            is_valid_request_id id ≡ true
      go none = fresh
      go (some id) = elim (Bool-cases (is_valid_request_id id)) [
        | inl e ↦ rw e e
        | inr e ↦ rw e fresh
      ]

  row-Logged :
      (a : Response) (s : State) (rows : List RequestLog)
      → is_proxy_path q.path ≡ true
      → is_valid_request_id env.new_request_id ≡ true
      → s.request_id ≡ some (id_for env r q)
      → let a' : Response = record a { x_request_id = some (id_for env r q) } in
        let s' = maybe_capture_error env a' s in
        Logged a' rows (persist_request_log env r q true a' s' rows)
  unfolding persist_request_log row_of
  row-Logged a s rows proxy fresh has_id =
      go (endpoint_for s' q.path) (endpoint-some s' q.path proxy)
    where
      a' : Response
      a' = record a { x_request_id = some (id_for env r q) }

      s' : State
      s' = maybe_capture_error env a' s

      id_is : (row_of env r q s' (codes "") a').request_id ≡ id_for env r q
      id_is =
          rw ((capture-Noted env a' s).0, has_id) (shown_id (id_for env r q) (id_for_valid fresh))

      go :
          (o : Option (List ℕ))
          → is_some o ≡ true
          → Logged a' rows (elim o as (λ x. List RequestLog) [
            | none ↦ rows
            | some endpoint ↦ if true then row_of env r q s' endpoint a' ∷ rows else rows
          ])
      go none h = cc
      go (some endpoint) h = record {
        row = row_of env r q s' endpoint a';
        added = refl;
        same_id = ap some (sym id_is);
        valid_id =
            subst (λ (i : List ℕ). is_valid_request_id i ≡ true) (sym id_is) (id_for_valid fresh);
        same_status = refl;
        explained = (capture-Noted env a' s).1;
      }

  -- what is to be true of the end of a request
  abbrev pub Trailed : List RequestLog → Outcome × State × List RequestLog → Type 0
  Trailed rows x = elim x.0 [ responded a ↦ Logged a rows x.2 | raised e ↦ x.2 ≡ rows ]

  -- Behind a request to a proxied path, where the database takes the row and new ids are valid: an
  -- answer has left one row in the log, with the valid id that the answer carries, its status and,
  -- from status 400 on, an error; an exception that nothing has handled has left none. What is
  -- inside is to leave the id in the state alone.
  pub served-Trailed :
      (inner : Option (List ℕ) → App) (s : State) (rows : List RequestLog)
      → ((ctx : Option (List ℕ)) (t : State) → (inner ctx t).1.request_id ≡ t.request_id)
      → is_proxy_path q.path ≡ true
      → is_valid_request_id env.new_request_id ≡ true
      → Trailed rows (served env r q true inner s rows)
  unfolding served dispatch_id complete
  served-Trailed inner s rows keeps proxy fresh =
      let ctx : Option (List ℕ) = some (id_for env r q) in
      let t : State = record s { request_id = ctx } in
      go (dispatch_errors env q.path ctx (inner ctx) t)
        (errors-request_id env q.path ctx (inner ctx) t (keeps ctx t))
    where
      go :
          (x : Outcome × State)
          → x.1.request_id ≡ some (id_for env r q)
          → Trailed rows (complete env r q true x.0 x.1 rows)
      go (responded a, t) h = row-Logged a t rows proxy fresh h
      go (raised e, t) h = refl
