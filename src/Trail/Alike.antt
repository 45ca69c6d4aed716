-- ===== src/Trail/Alike.antt =====
-- The two places that answer an `FcamError`: app/middleware.py and app/errors.py.
use fcam_gateway.Prelude.{ℕ, ◌≡◌, refl, some, List, ◌∷◌}
use fcam_gateway.Trail.{
  Env, State, FcamError, fcam_error, raised, build_proxy_error_response, handle_fcam_error,
}
use fcam_gateway.Trail.Chain.{caught, with_handlers, recover, dispatch_errors}

-- An error is answered and noted in the same way whether the middleware or a route raises it, where
-- the state and the context have the same id and it is not empty.
pub error_alike :
    (env : Env) (path : List ℕ) (e : FcamError) (s : State) (c : ℕ) (cs : List ℕ)
    → s.request_id ≡ some (c ∷ cs)
    → dispatch_errors env path (some (c ∷ cs)) (λ t. (raised (fcam_error e), t)) s
      ≡ dispatch_errors env path
          (some (c ∷ cs))
          (with_handlers env path (some (c ∷ cs)) (λ t. (raised (fcam_error e), t)))
          s
unfolding dispatch_errors with_handlers caught recover handle_fcam_error build_proxy_error_response
error_alike env path e s c cs has_id = rw has_id refl
