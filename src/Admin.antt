-- ===== src/Admin.antt =====
-- The database of app/db/models.py as the console of app/api/control_plane.py writes it: the rows,
-- the constraints that the database enforces, a session with commit and rollback.
--
-- Ids are given by the database, and are arguments. `provider`, `status` and the columns that the
-- data plane uses are those of a row's `ApiKey` or `Client`. Foreign keys are enforced, as
-- app/db/session.py asks of SQLite and as PostgreSQL does.
pub mod Keys
pub mod Clients
pub mod Batch
pub mod Requests
pub mod Kept
pub mod Rows
pub mod History
pub mod Settled
pub mod Tokens
pub mod Purged
pub mod Unbound
pub mod Lifecycle
pub mod OneByOne
pub mod Whole
pub mod Import
use fcam_gateway.Prelude.{
  ℕ, Bool, true, false, ◌&&◌, not, Option, none, some, List, [], ◌∷◌, ◌==◌, if◌then◌else◌, elem,
  map, String, all_of, distinct, find_by, update_by,
}
use fcam_gateway.Prelude.Text.{same}
use fcam_gateway.Models.{ApiKey, Client, Snapshot, Result, ok, raise, Code}
use fcam_gateway.Bindings.{Binding}

-- `ApiKey`, with the columns of the console
pub record KeyRow : Type 0 where
  pub key : ApiKey
  pub client_id : Option ℕ
  pub hash : ℕ
  pub last4 : List ℕ
  pub name : Option (List ℕ)
  pub plan_type : List ℕ
  pub daily_quota : ℕ
  pub daily_usage : ℕ
  pub quota_reset_at : Option ℕ
  pub account_username : Option (List ℕ)
  pub account_password : Option (List ℕ)
  pub account_verified_at : Option ℕ

pub data ClientStatus : Type 0 where
  active disabled deleted : ClientStatus

-- `Client`, with the columns of the console
pub record ClientRow : Type 0 where
  pub client : Client
  pub name : List ℕ
  pub token_hash : ℕ
  pub token_ciphertext : Option (List ℕ)
  pub status : ClientStatus

-- the references of a `RequestLog`
pub record LogRow : Type 0 where
  pub client_id : Option ℕ
  pub api_key_id : Option ℕ

-- `AuditLog`: what was done, and to what
pub data Resource : Type 0 where
  api_key : String → ℕ → Resource
  client : ℕ → Resource
  all_keys : Resource

pub record Audit : Type 0 where
  pub action : String
  pub resource : Resource

-- the tables; of an idempotency record, its client
pub record Store : Type 0 where
  pub keys : List KeyRow
  pub clients : List ClientRow
  pub logs : List LogRow
  pub idempotency : List ℕ
  pub bindings : List Binding
  pub snapshots : List Snapshot
  pub audit : List Audit

abbrev pub key_ids : Store → List ℕ
key_ids s = map (λ (k : KeyRow). k.key.id) s.keys

abbrev pub client_ids : Store → List ℕ
client_ids s = map (λ (c : ClientRow). c.client.id) s.clients

abbrev pub elem_text : List ℕ → List (List ℕ) → Bool
elem_text t [] = false
elem_text t (u ∷ us) = if same t u then true else elem_text t us

unfoldable pub distinct_texts : List (List ℕ) → Bool
distinct_texts [] = true
distinct_texts (t ∷ ts) = not (elem_text t ts) && distinct_texts ts

-- a foreign key that may be null
abbrev pub refers : List ℕ → Option ℕ → Bool
refers ids none = true
refers ids (some i) = elem i ids

-- the unique columns
unfoldable pub is_unique : Store → Bool
unfolding distinct_texts
is_unique s =
    distinct (key_ids s)
    && distinct (map (λ (k : KeyRow). k.hash) s.keys)
    && distinct (client_ids s)
    && distinct (map (λ (c : ClientRow). c.token_hash) s.clients)
    && distinct_texts (map (λ (c : ClientRow). c.name) s.clients)

-- the foreign keys
unfoldable pub is_referred : Store → Bool
is_referred s =
    all_of (λ (k : KeyRow). refers (client_ids s) k.client_id) s.keys
    && all_of (λ (l : LogRow). refers (client_ids s) l.client_id) s.logs
    && all_of (λ (l : LogRow). refers (key_ids s) l.api_key_id) s.logs
    && all_of (λ c. elem c (client_ids s)) s.idempotency
    && all_of (λ (b : Binding). elem b.place.client_id (client_ids s)) s.bindings
    && all_of (λ (b : Binding). elem b.api_key_id (key_ids s)) s.bindings
    && all_of (λ (x : Snapshot). elem x.api_key_id (key_ids s)) s.snapshots

unfoldable pub holds : Store → Bool
unfolding is_unique is_referred
holds s = is_unique s && is_referred s

-- the tables as the request sees them, as they were committed last, and the outcomes of the
-- commits to come where the constraints hold (an empty list: all succeed)
pub record Db : Type 0 where
  pub now : Store
  pub saved : Store
  pub outcomes : List Bool

pub data Committed : Type 0 where
  done integrity_error failed : Committed

-- `db.rollback()`, and the close of the session
unfoldable pub rollback : Db → Db
rollback d = record d { now = d.saved }

-- the pending writes and `db.commit()`; every caller answers a failure by `db.rollback()`, which is
-- included
unfoldable pub commit : Db → Committed × Db
unfolding holds rollback
commit d = if not (holds d.now) then (integrity_error, rollback d) else elim d.outcomes [
  | [] ↦ (done, record d { saved = d.now })
  | outcome ∷ rest ↦
      if outcome
      then (done, record d { saved = d.now; outcomes = rest })
      else (failed, record (rollback d) { outcomes = rest })
]

-- `_audit`
unfoldable pub note : String → Resource → Db → Db
note action resource d = record d {
  now = record d.now { audit = record { action = action; resource = resource } ∷ d.now.audit };
}

abbrev pub has_id : ℕ → KeyRow → Bool
has_id id k = k.key.id == id

abbrev pub is_client : ℕ → ClientRow → Bool
is_client id c = c.client.id == id

-- `db.query(ApiKey).filter(ApiKey.id == key_id).one_or_none()`
unfoldable pub key_row : Db → ℕ → Option KeyRow
key_row d id = find_by (has_id id) d.now.keys

unfoldable pub client_row : Db → ℕ → Option ClientRow
client_row d id = find_by (is_client id) d.now.clients

-- attributes assigned to a row
unfoldable pub put_key : ℕ → (KeyRow → KeyRow) → Db → Db
put_key id f d = record d { now = record d.now { keys = update_by (has_id id) f d.now.keys } }

unfoldable pub put_client : ℕ → (ClientRow → ClientRow) → Db → Db
put_client id f d = record d {
  now = record d.now { clients = update_by (is_client id) f d.now.clients };
}

-- the audit log apart, a key's row
abbrev pub key_resource : KeyRow → Resource
key_resource k = api_key k.key.provider k.key.id

-- a commit as the last step of a request: the answer, or the error of a constraint, or 503
unfoldable pub settle {ℓ} : {A : Type ℓ} → Result A → A → Db → Result A × Db
unfolding commit
settle clash a d =
    let c = commit d in
    (
      elim c.0 [ done ↦ ok a | integrity_error ↦ clash | failed ↦ raise 503 Code.db_unavailable ],
      c.1,
    )
