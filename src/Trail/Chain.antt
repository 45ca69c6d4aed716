-- ===== src/Trail/Chain.antt =====
-- `FcamErrorMiddleware` and `RequestIdMiddleware` of app/middleware.py around the handlers of
-- app/errors.py. What stands inside is a function of the state of a request.
--
-- As the framework has it, the handler of an unexpected exception stands outside of all middleware,
-- and the other handlers inside.
use fcam_gateway.Prelude.{Bool, Option, none, some, List, if◌then◌else◌, ℕ}
use fcam_gateway.Redact.{Patterns}
use fcam_gateway.Trail.{
  Env, State, Response, Raised, fcam_error, validation_error, http_exception, unexpected, Outcome,
  responded, raised, first_id, build_error_response, build_proxy_error_response, is_proxy_path,
  error_noted, handle_fcam_error, handle_validation_error, handle_http_exception,
}
use fcam_gateway.Trail.Log.{
  is_valid_request_id, maybe_capture_error, RequestLog, Request, persist_request_log,
}

abbrev pub App : Type 0
App = State → Outcome × State

module _ (env : Env) (path : List ℕ) (ctx : Option (List ℕ)) where
  abbrev pub answered : Response × State → Outcome × State
  answered x = (responded x.0, x.1)

  -- what the handlers inside make of an exception
  unfoldable pub recover : Raised → App
  unfolding handle_fcam_error handle_validation_error handle_http_exception
  recover (fcam_error e) s = answered (handle_fcam_error env path ctx e s)
  recover (validation_error errors) s = answered (handle_validation_error env path ctx errors s)
  recover (http_exception status) s = answered (handle_http_exception env path ctx status s)
  recover (unexpected name) s = (raised (unexpected name), s)

  unfoldable pub with_handlers : App → App
  unfolding recover
  with_handlers route s =
      let x = route s in elim x.0 [ responded r ↦ (responded r, x.1) | raised e ↦ recover e x.1 ]

  -- what `FcamErrorMiddleware` makes of an exception
  unfoldable pub caught : Raised → App
  unfolding build_error_response build_proxy_error_response is_proxy_path error_noted
  caught (fcam_error e) s =
      let id = first_id s.request_id ctx env.new_request_id in
      (
        responded (
            if is_proxy_path path
            then build_proxy_error_response env id e
            else build_error_response env id e),
        error_noted e s,
      )
  caught e s = (raised e, s)

  -- `FcamErrorMiddleware.dispatch`
  unfoldable pub dispatch_errors : App → App
  unfolding caught
  dispatch_errors next s =
      let x = next s in elim x.0 [ responded r ↦ (responded r, x.1) | raised e ↦ caught e x.1 ]

module _ (env : Env) (r : Patterns) (q : Request) where
  -- the id of a request
  unfoldable pub id_for : List ℕ
  unfolding is_valid_request_id
  id_for = elim q.x_request_id [
    | none ↦ env.new_request_id
    | some id ↦ if is_valid_request_id id then id else env.new_request_id
  ]

  -- an answer gets its id, and is logged
  unfoldable pub complete :
      Bool → Outcome → State → List RequestLog → Outcome × State × List RequestLog
  unfolding id_for maybe_capture_error persist_request_log
  complete is_written (responded a) s rows =
      let a' : Response = record a { x_request_id = some id_for } in
      let s' = maybe_capture_error env a' s in
      (responded a', s', persist_request_log env r q is_written a' s' rows)
  complete is_written (raised e) s rows = (raised e, s, rows)

  -- `RequestIdMiddleware.dispatch`; what is inside has the id in its context
  unfoldable pub dispatch_id :
      Bool → App → State → List RequestLog → Outcome × State × List RequestLog
  unfolding complete id_for
  dispatch_id is_written next s rows =
      let x = next (record s { request_id = some id_for }) in complete is_written x.0 x.1 rows

  -- the middleware that `create_app` adds, around `inner`: the limits and, with their handlers, the
  -- routes
  unfoldable pub served :
      Bool → (Option (List ℕ) → App) → State → List RequestLog → Outcome × State × List RequestLog
  unfolding dispatch_id dispatch_errors id_for
  served is_written inner s rows =
      dispatch_id is_written (dispatch_errors env q.path (some id_for) (inner (some id_for))) s rows
