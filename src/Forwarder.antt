-- ===== src/Forwarder.antt =====
-- app/core/forwarder.py. This file holds what a call of the forwarder works on; the children hold
-- the classification of responses, the marks on keys, the two ways to forward, and the proofs.
--
-- One clock, in microseconds, stands for `datetime.now` and `time.monotonic`; it moves while the
-- upstream is waited for. What the upstream, the credit endpoint and the cipher answer are
-- functions of the environment. Logging and metrics are left out.
pub mod Outcome
pub mod Attribution
pub mod Failures
pub mod Marks
pub mod Shared
pub mod Pinned
pub mod Rotation
pub mod Forward
pub mod Frame
pub mod Balance
pub mod Budget
pub mod Turns
pub mod Ends
pub mod Served
pub mod Requests
pub mod Totals
pub mod PoolApi
pub mod KeyTest
use fcam_gateway.Prelude.{ℕ, Bool, false, Option, none, some, List, ◌≡◌, elem, String}
use fcam_gateway.Prelude.Dict.{Dict}
use fcam_gateway.Models.{ApiKey, Session, Result, ok}
use fcam_gateway.RateLimit.{Bucket}
use fcam_gateway.Concurrency.{States}
use fcam_gateway.Credit.{RefreshConfig}
use fcam_gateway.Credit.Probe.{Answer}
use fcam_gateway.Estimator.{Reported}

-- the arguments of `KeyPool.select`
pub record Choice : Type 0 where
  pub provider : String
  pub exclude : List ℕ
  pub now : ℕ
  pub buckets : Dict Bucket
  pub cooldown : ℕ → Option ℕ

-- the key pool as the forwarder uses it; `select` answers nothing where it fails otherwise than by
-- an `FcamError`
pub record KeyPoolApi : Type 1 where
  pub Pool : Type 0
  pub select : Choice → Pool → Session → Option (Result ApiKey) × Pool × Session
  pub record_success : ℕ → Pool → Pool
  pub record_failure : ℕ → List ℕ → Option ℕ → ℕ → Pool → Pool
  pub select_untried :
      (c : Choice) (p : Pool) (s : Session) (key : ApiKey)
      → (select c p s).0 ≡ some (ok key)
      → elem key.id c.exclude ≡ false

-- the header `retry-after`
pub data Header : Type 0 where
  missing text negative : Header
  seconds : ℕ → Header

-- what the forwarder reads of an upstream response: the status, the lower-cased preview of the
-- body, the header, and the counts of a JSON body
pub record Response : Type 0 where
  pub status : ℕ
  pub body : List ℕ
  pub retry_after : Header
  pub reported : Option Reported

-- a timeout, another `httpx.HTTPError`, or a response; an exception of another kind, such as
-- `httpx.InvalidURL` for a path that is no URL, which no handler catches, is left out
pub data Reply : Type 0 where
  timeout http_error : Reply
  response : Response → Reply

pub record Exchange : Type 0 where
  pub elapsed : ℕ
  pub reply : Reply

-- a provider other than firecrawl
pub record Provider : Type 0 where
  pub enabled : Bool
  pub max_retries : ℕ

-- the configuration; `estimation` joins the three switches of the local credit estimate
pub record Config : Type 0 where
  pub max_retries : ℕ
  pub other_providers : String → Option Provider
  pub cooldown_seconds : ℕ
  pub failure_threshold : ℕ
  pub failure_window_seconds : ℕ
  pub failed_cooldown_seconds : ℕ
  pub count_success : Bool
  pub estimation : Bool
  pub refresh : RefreshConfig

-- the environment: the n-th request to the upstream with a key, the n-th credit probe, whether a
-- ciphertext decrypts, the calendar, whether cooldowns are stored outside the database, and what
-- Redis answers to TTL for an entry that expires at the first moment, when asked at the second
pub record Env : Type 0 where
  pub config : Config
  pub has_master_key : Bool
  pub upstream : ℕ → ApiKey → Exchange
  pub probe : ℕ → Answer
  pub decrypts : List ℕ → Bool
  pub month_start : ℕ → ℕ
  pub stores_cooldown : Bool
  pub ttl : ℕ → ℕ → ℕ

-- everything that a call changes; `sent` lists the keys of the requests made, newest first
pub record World (Pool : Type 0) : Type 0 where
  pub session : Session
  pub pool : Pool
  pub buckets : Dict Bucket
  pub leases : States
  pub failures : Dict (ℕ × ℕ)
  pub debounce : Dict ℕ
  pub cooldowns : Dict ℕ
  pub clock : ℕ
  pub sent : List ℕ
  pub probes : ℕ
