-- ===== src/Models.antt =====
-- app/db/models.py and app/errors.py: the rows that the modelled code reads and writes, with the
-- columns that it uses, the errors that it raises, and the database session.
--
-- A moment is a number of microseconds. `status` is a string column that the program only ever
-- fills with the words below. Credit counts are not negative.
pub mod Rows
use fcam_gateway.Prelude.{
  ℕ, Bool, true, false, Option, none, some, List, [], ◌∷◌, String, map, if◌then◌else◌, ◌==◌,
}

pub data Status : Type 0 where
  active cooling failed disabled decrypt_failed invalid : Status

-- `ApiKey`
pub record ApiKey : Type 0 where
  pub id : ℕ
  pub ciphertext : List ℕ
  pub provider : String
  pub is_active : Bool
  pub status : Status
  pub max_concurrent : ℕ
  pub rate_limit_per_min : ℕ
  pub cooldown_until : Option ℕ
  pub total_requests : ℕ
  pub last_used_at : Option ℕ
  pub last_credit_snapshot_id : Option ℕ
  pub last_credit_check_at : Option ℕ
  pub cached_remaining_credits : Option ℕ
  pub cached_plan_credits : Option ℕ
  pub next_refresh_at : Option ℕ

-- `Client`
pub record Client : Type 0 where
  pub id : ℕ
  pub is_active : Bool
  pub daily_quota : Option ℕ
  pub daily_usage : ℕ
  pub quota_reset_at : Option ℕ
  pub rate_limit_per_min : ℕ
  pub max_concurrent : ℕ
  pub max_retries : Option ℕ
  pub last_used_at : Option ℕ

-- `CreditSnapshot`
pub record Snapshot : Type 0 where
  pub id : ℕ
  pub api_key_id : ℕ
  pub remaining_credits : ℕ
  pub plan_credits : ℕ
  pub fetch_success : Bool

-- the codes of `FcamError` that the modelled code raises
pub data Code : Type 0 where
  db_unavailable not_ready provider_not_configured : Code
  no_key_configured all_keys_disabled all_keys_no_credits all_keys_cooling : Code
  all_keys_rate_limited no_key_available all_keys_busy key_decrypt_failed : Code
  upstream_timeout upstream_unavailable : Code
  idempotency_key_required idempotency_key_conflict idempotency_in_progress : Code
  client_concurrency_limited client_rate_limited client_quota_exceeded : Code
  client_unauthorized client_disabled request_too_large admin_unauthorized admin_forbidden : Code
  validation_error path_not_allowed unsupported_media_type not_found api_key_duplicate : Code
  token_not_stored decryption_failed mixed_provider_batch internal_error : Code

-- `FcamError`, without its texts
pub record Failure : Type 0 where
  pub status_code : ℕ
  pub code : Code
  pub retry_after : Option ℕ

pub data Result {ℓ} (A : Type ℓ) : Type ℓ where
  ok : A → Result A
  err : Failure → Result A

abbrev pub failure : ℕ → Code → Failure
failure status code = record { status_code = status; code = code; retry_after = none }

abbrev pub failure_after : ℕ → Code → Option ℕ → Failure
failure_after status code seconds = record {
  status_code = status;
  code = code;
  retry_after = seconds;
}

abbrev pub raise {ℓ} : {A : Type ℓ} → ℕ → Code → Result A
raise status code = err (failure status code)

-- what a request's transaction covers
pub record Tables : Type 0 where
  pub keys : List ApiKey
  pub client : Client
  pub snapshots : List Snapshot
  pub next_snapshot_id : ℕ

-- The session: the rows as the request sees them, the rows last committed, and the outcomes of
-- the commits to come (an empty list: all succeed).
pub record Session : Type 0 where
  pub tables : Tables
  pub saved : Tables
  pub commits : List Bool

-- `db.commit()`; every caller answers a failure by `db.rollback()`, which is included
unfoldable pub commit : Session → Bool × Session
commit s = elim s.commits [
  | [] ↦ (true, record s { saved = s.tables })
  | outcome ∷ rest ↦ elim outcome [
    | true ↦ (true, record s { saved = s.tables; commits = rest })
    | false ↦ (false, record s { tables = s.saved; commits = rest })
  ]
]

-- `db.query(ApiKey).filter(ApiKey.id == id).one_or_none()`
unfoldable pub find_key : ℕ → List ApiKey → Option ApiKey
find_key id [] = none
find_key id (k ∷ ks) = if k.id == id then some k else find_key id ks

-- Attributes assigned to the row with this id. The session's identity map makes every holder of
-- the row see them.
unfoldable pub assign : ℕ → (ApiKey → ApiKey) → List ApiKey → List ApiKey
assign id f [] = []
assign id f (k ∷ ks) = (if k.id == id then f k else k) ∷ assign id f ks

-- the same, in a session
unfoldable pub assign_key : ℕ → (ApiKey → ApiKey) → Session → Session
unfolding assign
assign_key id f s = record s { tables = record s.tables { keys = assign id f s.tables.keys } }

-- `key.status in DISABLED_STATUSES` of app/core/key_pool.py
abbrev pub is_terminal : Status → Bool
is_terminal Status.disabled = true
is_terminal Status.decrypt_failed = true
is_terminal Status.invalid = true
is_terminal Status.active = false
is_terminal Status.cooling = false
is_terminal Status.failed = false

-- `_is_disabled` of app/core/key_pool.py
abbrev pub is_disabled : ApiKey → Bool
is_disabled key = if key.is_active then is_terminal key.status else true
