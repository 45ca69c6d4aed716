-- ===== src/Api/Pipeline.antt =====
-- app/api/firecrawl_v2_compat.py: the steps that the routes of the data plane are made of, from the
-- limits of the client to the answer. A route's plan says which steps its handler takes. The
-- stores of the forwarder, the bindings and the idempotency records are each committed on their
-- own: where one commits, the others have nothing pending.
use fcam_gateway.Prelude.{
  ℕ, Bool, true, false, ◌||◌, not, Option, none, some, List, [], ◌∷◌, String, ◌==◌, leb, ltb,
  if◌then◌else◌,
}
use fcam_gateway.Prelude.Dict.{Dict}
use fcam_gateway.Prelude.Text.{codes, contains, lower, strip}
use fcam_gateway.Models.{Client, Result, ok, err}
use fcam_gateway.RateLimit.{Bucket}
use fcam_gateway.Concurrency.{States}
use fcam_gateway.Bindings.{Table, bind_resource, lookup_bound_key_id}
use fcam_gateway.Idempotency.{Codec, Settings, Store, Reply, start_or_replay, complete}
use fcam_gateway.Forwarder.{KeyPoolApi, Env, World, Response}
use fcam_gateway.Forwarder.Shared.{Request, ForwardResult}
use fcam_gateway.Forwarder.Forward.{forward}
use fcam_gateway.Api.Governance.{Moment, Gate, enter, leave}

-- what the handlers read of a request: the path, the query string, the idempotency key, and the
-- digest of the payload for an endpoint
pub record Inbound : Type 0 where
  pub path : List ℕ
  pub query : List ℕ
  pub idempotency_key : Option (List ℕ)
  pub digest : List ℕ → ℕ

pub data Method : Type 0 where
  get post delete : Method

abbrev pub is_get : Method → Bool
is_get Method.get = true
is_get Method.post = false
is_get Method.delete = false

-- one or two upstream paths, the second for a 404 or a 405
pub record Target : Type 0 where
  pub provider : String
  pub method : Method
  pub primary_path : List ℕ
  pub fallback_path : Option (List ℕ)

-- what a handler does: it forwards; it looks up the resource's key and forwards with it; it
-- forwards and binds the created resource; or the same under an idempotency key, for an endpoint,
-- where it need not bind
pub data Plan : Type 0 where
  forwards : Target → Plan
  looks_up : (resource_type resource_id : List ℕ) → Target → Plan
  creates : (resource_type : List ℕ) → Target → Plan
  begins : (endpoint : List ℕ) → (resource_type : Option (List ℕ)) → Target → Plan

-- what is read of a response beside what the forwarder reads: its content, the content type,
-- whether the body is empty, and the text under `id` where the body is a JSON object with one
pub record Reader (C : Codec) : Type 0 where
  pub content : Response → C.Content
  pub content_type : Response → List ℕ
  pub is_empty : Response → Bool
  pub json_id : Response → Option (List ℕ)

abbrev pub is_not_found : ℕ → Bool
is_not_found status = status == 404 || status == 405

module _ (K : KeyPoolApi) (env : Env) (C : Codec) (reader : Reader C) (settings : Settings) where
  -- the application's state as a request sees it
  pub record Gateway : Type 0 where
    pub world : World K.Pool
    pub client_buckets : Dict Bucket
    pub client_leases : States
    pub bindings : Table
    pub records : Store C

  -- a result and the state; no result is an error that is no `FcamError`
  abbrev pub Step : Type 0 → Type 0
  Step A = Option (Result A) × Gateway

  -- what follows where no error was raised
  unfoldable pub and_then : {A B : Type 0} → Step A → (A → Gateway → Step B) → Step B
  and_then (none, g) k = (none, g)
  and_then (some (err f), g) k = (some (err f), g)
  and_then (some (ok a), g) k = k a g

  abbrev pub client : Gateway → Client
  client g = g.world.session.tables.client

  -- `_extract_id_from_response`
  unfoldable pub extract_id : Response → Option (List ℕ)
  unfolding contains lower strip
  extract_id r =
      let id : Option (List ℕ) = elim (reader.json_id r) [
        | none ↦ none
        | some text ↦ elim (strip text) [ [] ↦ none | c ∷ cs ↦ some (c ∷ cs) ]
      ] in
      if ltb r.status 200 || leb 300 r.status
      then none
      else if not (contains (codes "application/json") (lower (reader.content_type r)))
      then none
      else if reader.is_empty r
      then none
      else id

  -- `_maybe_bind_created_resource`
  unfoldable pub maybe_bind_created_resource : List ℕ → ForwardResult → Gateway → Gateway
  unfolding extract_id bind_resource
  maybe_bind_created_resource kind r g = elim (extract_id r.answer) [
    | none ↦ g
    | some id ↦ elim r.api_key_id [
      | none ↦ g
      | some key ↦ record g {
        bindings = bind_resource g.world.clock (client g).id key kind id none g.bindings;
      }
    ]
  ]

  -- the arguments of a call of `Forwarder.forward`
  abbrev pub request_of : Target → List ℕ → Gateway → Request
  request_of t path g = record {
    provider = t.provider;
    path = path;
    is_get = is_get t.method;
    max_retries = (client g).max_retries;
  }

  unfoldable pub send_to : Target → List ℕ → Option ℕ → Gateway → Step ForwardResult
  send_to t path pin g =
      let r = forward K env (request_of t path g) pin g.world in (r.0, record g { world = r.1 })

  -- `_forward_with_fallback`
  unfoldable pub forward_with_fallback : Target → Option ℕ → Gateway → Step ForwardResult
  unfolding send_to
  forward_with_fallback t pin g = and_then (send_to t t.primary_path pin g) (λ r g1.
      elim t.fallback_path [
        | none ↦ (some (ok r), g1)
        | some path ↦
            if is_not_found r.answer.status then send_to t path pin g1 else (some (ok r), g1)
      ])

  abbrev pub reply_of : ForwardResult → Reply C
  reply_of r = record { status = r.answer.status; content = reader.content r.answer }

  -- the part of a handler behind `start_or_replay`
  unfoldable pub carry_out : Option (List ℕ) → Option ℕ → Target → Gateway → Step (Reply C)
  unfolding forward_with_fallback maybe_bind_created_resource
  carry_out kind ctx t g = and_then (forward_with_fallback t none g) (λ r g1.
      let g2 : Gateway = elim kind [ none ↦ g1 | some k ↦ maybe_bind_created_resource k r g1 ] in
      (
        some (ok (reply_of r)),
        record g2 { records = complete C settings ctx (reply_of r) g2.records },
      ))

  -- the handler of a route
  unfoldable pub run : Inbound → Plan → Gateway → Step (Reply C)
  unfolding carry_out
  run x (forwards t) g =
      and_then (forward_with_fallback t none g) (λ r g1. (some (ok (reply_of r)), g1))
  run x (looks_up kind id t) g =
      let found = lookup_bound_key_id g.world.clock (client g).id kind id g.bindings in
      and_then (forward_with_fallback t found.0 (record g { bindings = found.1 }))
        (λ r g1. (some (ok (reply_of r)), g1))
  run x (creates kind t) g =
      and_then (forward_with_fallback t none g)
        (λ r g1. (some (ok (reply_of r)), maybe_bind_created_resource kind r g1))
  run x (begins endpoint kind t) g =
      let s =
        start_or_replay C settings (client g).id x.idempotency_key endpoint (x.digest endpoint)
          g.world.clock g.records in
      and_then (s.0, record g { records = s.1 })
        (λ a g1. elim a.1 [ some replay ↦ (some (ok replay), g1) | none ↦ carry_out kind a.0 t g1 ])

  abbrev pub gate : Gateway → Gate
  gate g = record {
    session = g.world.session;
    buckets = g.client_buckets;
    leases = g.client_leases;
  }

  abbrev pub with_gate : Gateway → Gate → Gateway
  with_gate g x = record g {
    world = record g.world { session = x.session };
    client_buckets = x.buckets;
    client_leases = x.leases;
  }

  -- a request of a client: the limits, the handler, and the lease given back whatever it ends with
  unfoldable pub serve : Moment → Inbound → Plan → Gateway → Step (Reply C)
  unfolding run
  serve m x p g =
      let e = enter m (gate g) in
      let g1 = with_gate g e.1 in
      elim e.0 [
        | err f ↦ (some (err f), g1)
        | ok lease ↦ let r = run x p g1 in (r.0, with_gate r.1 (leave lease (gate r.1)))
      ]
