-- ===== src/Admin/Clients.antt =====
-- The console's routes for clients, in app/api/control_plane.py, and app/core/batch_clients.py.
use fcam_gateway.Prelude.{
  ℕ, Bool, true, false, ◌||◌, Option, none, some, List, [], ◌∷◌, ◌==◌, if◌then◌else◌, without,
  update_by,
}
use fcam_gateway.Prelude.Text.{strip}
use fcam_gateway.Models.{Result, ok, raise, Code}
use fcam_gateway.Admin.{
  KeyRow, ClientStatus, active, disabled, deleted, ClientRow, LogRow, Resource, Db, rollback,
  commit, note, is_client, client_row, put_client, settle,
}
use fcam_gateway.Admin.Keys.{Master, given}

-- `CreateClientRequest`
pub record CreateClient : Type 0 where
  pub name : List ℕ
  pub daily_quota : Option ℕ
  pub rate_limit_per_min : ℕ
  pub max_concurrent : ℕ
  pub max_retries : ℕ
  pub is_active : Bool
  pub token : Option (List ℕ)

-- the fields of `UpdateClientRequest` that are set; a field that is set may be null
pub record UpdateClient : Type 0 where
  pub daily_quota : Option (Option ℕ)
  pub rate_limit_per_min : Option (Option ℕ)
  pub max_concurrent : Option (Option ℕ)
  pub max_retries : Option (Option ℕ)
  pub is_active : Option (Option Bool)

abbrev pub status_of : Bool → ClientStatus
status_of true = active
status_of false = disabled

-- the row that `create_client` adds, with its token
unfoldable pub new_client : Master → ℕ → ℕ → CreateClient → List ℕ → ClientRow
new_client m today id p token = record {
  client = record {
    id = id;
    is_active = p.is_active;
    daily_quota = p.daily_quota;
    daily_usage = 0;
    quota_reset_at = some today;
    rate_limit_per_min = p.rate_limit_per_min;
    max_concurrent = p.max_concurrent;
    max_retries = some p.max_retries;
    last_used_at = none;
  };
  name = p.name;
  token_hash = m.hash token;
  token_ciphertext = some (m.encrypt token);
  status = status_of p.is_active;
}

abbrev pub add_client : ClientRow → Db → Db
add_client c d = record d { now = record d.now { clients = c ∷ d.now.clients } }

-- the token: the one in the payload where it is not blank, and a generated one otherwise; nothing
-- where `validate_client_token_complexity` refuses it
unfoldable pub choose_token : (List ℕ → Bool) → List ℕ → Option (List ℕ) → Option (List ℕ)
unfolding strip
choose_token is_complex generated none = some generated
choose_token is_complex generated (some text) = elim (strip text) [
  | [] ↦ some generated
  | c ∷ cs ↦ if is_complex (c ∷ cs) then some (c ∷ cs) else none
]

-- `create_client`: the row and its token
unfoldable pub create_client :
    (List ℕ → Bool)
    → Option Master
    → ℕ
    → ℕ
    → List ℕ
    → CreateClient
    → Db
    → Result (ClientRow × List ℕ) × Db
unfolding choose_token new_client note settle
create_client is_complex none today id generated p d = (raise 503 Code.not_ready, d)
create_client is_complex (some m) today id generated p d =
    elim (choose_token is_complex generated p.token) [
      | none ↦ (raise 400 Code.validation_error, d)
      | some token ↦
          let c = new_client m today id p token in
          settle (raise 400 Code.validation_error) (c, token)
            (note "client.create" (Resource.client id) (add_client c d))
    ]

abbrev pub is_deleted : ClientRow → Bool
is_deleted c = elim c.status [ deleted ↦ true | _ ↦ false ]

-- `bool(data["is_active"])`
abbrev pub truth : Option Bool → Bool
truth none = false
truth (some b) = b

abbrev pub set_quota : Option ℕ → ClientRow → ClientRow
set_quota q c = record c { client = record c.client { daily_quota = q } }

abbrev pub set_rate : Option ℕ → ClientRow → ClientRow
set_rate none c = c
set_rate (some n) c = record c { client = record c.client { rate_limit_per_min = n } }

abbrev pub set_concurrent : Option ℕ → ClientRow → ClientRow
set_concurrent none c = c
set_concurrent (some n) c = record c { client = record c.client { max_concurrent = n } }

abbrev pub set_retries : Option ℕ → ClientRow → ClientRow
set_retries none c = c
set_retries (some n) c = record c { client = record c.client { max_retries = some n } }

abbrev pub set_active : Option Bool → ClientRow → ClientRow
set_active b c = record c {
  client = record c.client { is_active = truth b };
  status = status_of (truth b);
}

unfoldable pub patched : UpdateClient → ClientRow → ClientRow
patched p c = given set_active p.is_active (
    given set_retries p.max_retries (
      given set_concurrent p.max_concurrent
        (given set_rate p.rate_limit_per_min (given set_quota p.daily_quota c))))

-- a column that is not nullable is given null
abbrev pub is_null : Option (Option ℕ) → Bool
is_null (some none) = true
is_null (some (some n)) = false
is_null none = false

-- whether the database refuses the assignments for a null
abbrev pub nulls : UpdateClient → Bool
nulls p = is_null p.rate_limit_per_min || is_null p.max_concurrent

-- `update_client`
unfoldable pub update_client : ℕ → UpdateClient → Db → Result ClientRow × Db
unfolding client_row patched put_client note settle rollback
update_client id p d = elim (client_row d id) [
  | none ↦ (raise 404 Code.not_found, d)
  | some c ↦
      if is_deleted c
      then (raise 404 Code.not_found, d)
      else if nulls p
      then (raise 503 Code.db_unavailable, rollback d)
      else settle (raise 503 Code.db_unavailable) (patched p c)
          (note "client.update" (Resource.client id) (put_client id (patched p) d))
]

abbrev pub gone : ClientRow → ClientRow
gone c = record c { client = record c.client { is_active = false }; status = deleted }

-- `delete_client`
unfoldable pub delete_client : ℕ → Db → Result (Unit {0}) × Db
unfolding client_row put_client note settle
delete_client id d = elim (client_row d id) [
  | none ↦ (raise 404 Code.not_found, d)
  | some c ↦
      settle (raise 503 Code.db_unavailable) tt
        (note "client.delete" (Resource.client id) (put_client id gone d))
]

abbrev pub is_at : Option ℕ → ℕ → Bool
is_at none id = false
is_at (some i) id = i == id

-- the rows that let go of a client or go with it, and `db.delete(client)`
unfoldable pub erase_client : ℕ → Db → Db
erase_client id d = record d {
  now = record d.now {
    clients = without (is_client id) d.now.clients;
    keys =
        update_by (λ (k : KeyRow). is_at k.client_id id) (λ k. record k { client_id = none })
          d.now.keys;
    logs =
        update_by (λ (l : LogRow). is_at l.client_id id) (λ l. record l { client_id = none })
          d.now.logs;
    idempotency = without (λ c. c == id) d.now.idempotency;
  };
}

-- `purge_client`
unfoldable pub purge_client : ℕ → Db → Result (Unit {0}) × Db
unfolding client_row erase_client note settle
purge_client id d = elim (client_row d id) [
  | none ↦ (raise 404 Code.not_found, d)
  | some c ↦
      settle (raise 503 Code.db_unavailable) tt
        (note "client.purge" (Resource.client id) (erase_client id d))
]

unfoldable pub with_token : Master → List ℕ → ClientRow → ClientRow
with_token m token c = record c {
  token_hash = m.hash token;
  token_ciphertext = some (m.encrypt token);
}

-- `rotate_client_token`, with the token that is generated
unfoldable pub rotate_client_token : Option Master → List ℕ → ℕ → Db → Result (List ℕ) × Db
unfolding client_row with_token put_client note settle
rotate_client_token none token id d = (raise 503 Code.not_ready, d)
rotate_client_token (some m) token id d = elim (client_row d id) [
  | none ↦ (raise 404 Code.not_found, d)
  | some c ↦
      settle (raise 503 Code.db_unavailable) token
        (note "client.rotate" (Resource.client id) (put_client id (with_token m token) d))
]

-- `reveal_client_token`, with the decryption under the master key, where there is one; the failure
-- of the last commit is passed over
unfoldable pub reveal_client_token :
    Option (List ℕ → Option (List ℕ)) → ℕ → Db → Result (List ℕ) × Db
unfolding client_row note commit
reveal_client_token none id d = (raise 503 Code.not_ready, d)
reveal_client_token (some decrypt) id d = elim (client_row d id) [
  | none ↦ (raise 404 Code.not_found, d)
  | some c ↦
      let told = (commit (note "client.token_reveal" (Resource.client id) d)).1 in
      let shown : Result (List ℕ) × Db = elim c.token_ciphertext [
        | none ↦ (raise 404 Code.token_not_stored, d)
        | some blob ↦ elim blob [
          | [] ↦ (raise 404 Code.token_not_stored, d)
          | b ∷ bs ↦ elim (decrypt (b ∷ bs)) [
            | none ↦ (raise 500 Code.decryption_failed, d)
            | some token ↦ (ok token, told)
          ]
        ]
      ] in
      if is_deleted c then (raise 404 Code.not_found, d) else shown
]
