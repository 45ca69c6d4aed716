-- ===== src/Lib.antt =====
-- Verification of fcam-gateway, a gateway that forwards API requests to upstream providers with
-- keys from a common pool.
--
-- Parts, by file, with the code that each models:
--   Prelude         shared names, Boolean tests, lists, dictionaries and texts as code points.
--   Models          app/db/models.py and app/errors.py: `ApiKey`, `Client`, `CreditSnapshot`,
--                   `FcamError`, and the database session. `commit` draws its outcome from a list;
--                   a failed commit includes the rollback that every caller answers it with.
--   RateLimit       app/core/rate_limit.py: `TokenBucketRateLimiter.peek` and `allow`. Tokens are
--                   exact fractions, in units of which a token has 60 times the ticks of a second.
--   Concurrency     app/core/concurrency.py: `ConcurrencyManager` and `Lease`; Accounting runs any
--                   history of calls.
--   Floats          Python's floats, as operations with facts that hold of all doubles, infinities
--                   and NaN included; Floats.Exact is an instance on whole numbers that runs.
--   KeyPool         app/core/key_pool.py: the failure memory and `score_key` here, the loop of
--                   `select` over the keys in Judge, its counters and errors in Tally, the choice
--                   in Choice, the call in Select, `is_4xx_score_failure` in Reason.
--   Credit          app/core/credit_fetcher.py (`apply_credit_fetch_result` here, the probe and
--                   `refresh_credits_after_4xx` in Probe) and `calculate_next_refresh_time` of
--                   app/core/credit_refresh.py; its rounds in Refresh. The first moment of a month
--                   is a parameter.
--   Estimator       app/core/credit_estimator.py: `estimate_credit_cost`, `normalize_endpoint`.
--   Forwarder       app/core/forwarder.py: `classify_upstream_outcome` in Outcome, what is written
--                   about a key in Marks, `forward` in Shared, Pinned, Rotation and Forward; also
--                   app/core/cooldown.py. The pool is an interface (`KeyPoolApi`), which PoolApi
--                   fills with KeyPool. Frame, Balance, Budget, Turns, Ends, Served and Requests
--                   carry the proofs on leases and requests, Totals their conclusions. KeyTest is
--                   `test_key` and `_test_key_exa`.
--   Idempotency     app/core/idempotency.py: `start_or_replay`, `complete`; Stored is the form in which
--                   a response is stored. The digest, `json.dumps`, `json.loads` and base 64 are
--                   parameters. The calls of itself have fuel 2, shown enough.
--   Bindings        app/core/resource_binding.py: `bind_resource`, `lookup_bound_key_id`; Registry is
--                   the map that they implement.
--   Api             app/api: the tokens in Auth and the limits of a client in Governance (deps.py),
--                   the steps of a request in Pipeline (firecrawl_v2_compat.py), and every route of
--                   /v2, /v1, /api and /exa in Routes, as a plan of such steps.
--   Settings        app/core/runtime_settings.py: the overrides, their file, a new process.
--   Middleware      app/middleware.py: `RequestLimitsMiddleware`, which a request passes first.
--   Redact          app/core/redact.py, and what app/middleware.py writes of an error's details;
--                   `json.dumps` is a parameter, and nothing is written where it raises.
--   Trail           app/errors.py here; the request log in Log and the other middleware in Chain, from
--                   app/middleware.py. JSON is a parameter of both.
--   Admin           app/api/control_plane.py: the tables with their constraints here, the routes for
--                   one key in Keys, for clients in Clients, the batches in Batch, and requests one
--                   after the other in Requests; also app/core/batch_clients.py. Import is the
--                   import of keys, with app/core/key_import.py. Kept, Rows and
--                   History carry the invariant; Tokens and Lifecycle follow a client's token.
--   Tests           small runs, and the theorems at concrete inputs.
--
-- How they interact: a call of `forward` passes a world from step to step, with the session, the
-- pool, the buckets, the leases, the failure counts, the cooldown store and the clock. It selects
-- a key from the pool, takes a token and a lease of the key, sends the request, gives the lease
-- back, and then judges the response and marks the key. What the upstream, the credit endpoint
-- and the cipher answer are functions of the environment, as is what Redis answers to TTL.
--
-- A request of a client (`serve`) takes a lease and a token of the client and passes its quota, and
-- then the steps of its route's plan: the idempotency key, the forwarding with the key to which the
-- resource is bound, and the binding of what was created; at the end the lease goes back. Around
-- them stand the limits of `Middleware`, the answers to errors and the row in the request log of
-- `Trail`, whose model takes what is inside as a function of the state of the request.
--
-- A request to the console works on tables that it commits as a whole, or not at all; what it leaves
-- is what `require_client` reads of a client, and what the pool reads of a key.
--
-- Conventions: moments are microseconds of one clock. A call is not interleaved with other calls;
-- the locks of the source make each operation of the limiter, the manager and the pool atomic.
-- Ids, counts and settings are natural numbers; a setting that is not positive is 0. Loops are
-- structural, or have the bounds of the source as fuel: `total_attempts` for a pinned key, which
-- is shown to be enough for an answer, and `max_selection_tries` over the pool, where the source
-- has an answer for the end of the tries as well.
--
-- Not modelled: the Redis limiter and manager, whose work is done by scripts in Redis; the loop
-- around the rounds of the credit refresh and the deletion of old snapshots; the routes of
-- the console that only read and its refresh of credits; configuration and wiring; what the routes
-- put on `request.state`; metrics and the lines of the logger; encryption; a
-- request to the upstream that ends in an exception which is no `httpx.HTTPError`, such as
-- `httpx.InvalidURL`.
pub mod Prelude
pub mod RateLimit
pub mod Concurrency
pub mod Models
pub mod Floats
pub mod KeyPool
pub mod Credit
pub mod Estimator
pub mod Idempotency
pub mod Bindings
pub mod Forwarder
pub mod Api
pub mod Settings
pub mod Middleware
pub mod Redact
pub mod Trail
pub mod Admin
pub mod Tests
