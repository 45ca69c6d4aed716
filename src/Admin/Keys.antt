-- ===== src/Admin/Keys.antt =====
-- The console's routes for one key, in app/api/control_plane.py. What the digest and the cipher of a
-- key come to under the master key, the date of today and a new row's id are arguments.
use text.Mathlib.Text.{◌==◌ as str_eq}
use fcam_gateway.Prelude.{
  ℕ, ◌-◌, Bool, true, false, ◌||◌, not, Option, none, some, List, ◌∷◌, ◌==◌, if◌then◌else◌, String,
  length, drop, map, without, update_by,
}
use fcam_gateway.Models.{Status, Snapshot, Result, ok, err, raise, Code}
use fcam_gateway.Admin.{
  KeyRow, LogRow, Resource, Db, commit, note, has_id, key_row, put_key, key_resource, settle,
}

-- the master key: the digest of a text, and its encryption
pub record Master : Type 0 where
  pub hash : List ℕ → ℕ
  pub encrypt : List ℕ → List ℕ

-- `CreateKeyRequest`
pub record CreateKey : Type 0 where
  pub api_key : List ℕ
  pub name : Option (List ℕ)
  pub plan_type : List ℕ
  pub max_concurrent : ℕ
  pub rate_limit_per_min : ℕ
  pub is_active : Bool
  pub provider : String

-- `UpdateKeyRequest`
pub record UpdateKey : Type 0 where
  pub client_id : Option ℕ
  pub api_key : Option (List ℕ)
  pub name : Option (List ℕ)
  pub plan_type : Option (List ℕ)
  pub daily_quota : Option ℕ
  pub max_concurrent : Option ℕ
  pub rate_limit_per_min : Option ℕ
  pub is_active : Option Bool

-- `payload.provider in _VALID_PROVIDERS`
abbrev pub is_provider : String → Bool
is_provider p = str_eq p "firecrawl" || str_eq p "exa"

-- `text[-4:]`
unfoldable pub last_four : List ℕ → List ℕ
last_four text = drop (length text - 4) text

-- the row that `create_key` adds
unfoldable pub new_row : Master → ℕ → ℕ → CreateKey → KeyRow
unfolding last_four
new_row m today id p = record {
  key = record {
    id = id;
    ciphertext = m.encrypt p.api_key;
    provider = p.provider;
    is_active = p.is_active;
    status = if p.is_active then Status.active else Status.disabled;
    max_concurrent = p.max_concurrent;
    rate_limit_per_min = p.rate_limit_per_min;
    cooldown_until = none;
    total_requests = 0;
    last_used_at = none;
    last_credit_snapshot_id = none;
    last_credit_check_at = none;
    cached_remaining_credits = none;
    cached_plan_credits = none;
    next_refresh_at = none;
  };
  client_id = none;
  hash = m.hash p.api_key;
  last4 = last_four p.api_key;
  name = p.name;
  plan_type = p.plan_type;
  daily_quota = 0;
  daily_usage = 0;
  quota_reset_at = some today;
  account_username = none;
  account_password = none;
  account_verified_at = none;
}

abbrev pub add_key : KeyRow → Db → Db
add_key k d = record d { now = record d.now { keys = k ∷ d.now.keys } }

-- `create_key`
unfoldable pub create_key : Option Master → ℕ → ℕ → CreateKey → Db → Result KeyRow × Db
unfolding new_row note settle
create_key none today id p d = (raise 503 Code.not_ready, d)
create_key (some m) today id p d =
    let k = new_row m today id p in
    if not (is_provider p.provider)
    then (raise 400 Code.validation_error, d)
    else settle (raise 409 Code.api_key_duplicate) k
        (note "key.create" (key_resource k) (add_key k d))

-- `key.is_active = ...` with what it does to the status
unfoldable pub set_active : Bool → KeyRow → KeyRow
set_active true k = record k {
  key = record k.key {
    is_active = true;
    status = elim k.key.status [ Status.disabled ↦ Status.active | s ↦ s ];
  };
}
set_active false k = record k { key = record k.key { is_active = false; status = Status.disabled } }

-- an assignment where the payload has a value
abbrev pub given {ℓ κ} : {A : Type ℓ} {B : Type κ} → (A → B → B) → Option A → B → B
given f none b = b
given f (some a) b = f a b

abbrev pub set_concurrent : ℕ → KeyRow → KeyRow
set_concurrent n k = record k { key = record k.key { max_concurrent = n } }

abbrev pub set_rate : ℕ → KeyRow → KeyRow
set_rate n k = record k { key = record k.key { rate_limit_per_min = n } }

-- the new upstream key of a row
unfoldable pub rotated : Master → List ℕ → KeyRow → KeyRow
unfolding last_four
rotated m text k = record k {
  key = record k.key { ciphertext = m.encrypt text };
  hash = m.hash text;
  last4 = last_four text;
}

-- the columns that the payload has
unfoldable pub patched : UpdateKey → KeyRow → KeyRow
unfolding set_active
patched p k = given set_active p.is_active (
    given set_rate p.rate_limit_per_min (
      given set_concurrent p.max_concurrent (
        given (λ q r. record r { daily_quota = q }) p.daily_quota
          (given (λ t r. record r { plan_type = t }) p.plan_type
            (given (λ n r. record r { name = some n }) p.name k)))))

-- from `payload.name` on, with the row as it is by then
unfoldable pub finish_update : UpdateKey → KeyRow → Db → Result KeyRow × Db
unfolding patched note put_key settle
finish_update p k d =
    settle (raise 409 Code.api_key_duplicate) (patched p k)
      (note "key.update" (key_resource k) (put_key k.key.id (patched p) d))

-- from `payload.api_key` on
unfoldable pub update_row :
    Option Master → UpdateKey → Option (List ℕ) → KeyRow → Db → Result KeyRow × Db
unfolding rotated note put_key finish_update
update_row master p none k d = finish_update p k d
update_row none p (some text) k d = (raise 503 Code.not_ready, d)
update_row (some m) p (some text) k d =
    finish_update p (rotated m text k)
      (note "key.rotate" (key_resource k) (put_key k.key.id (rotated m text) d))

-- `update_key`
unfoldable pub update_key : Option Master → ℕ → UpdateKey → Db → Result KeyRow × Db
unfolding key_row put_key update_row
update_key master id p d = elim (key_row d id) [
  | none ↦ (raise 404 Code.not_found, d)
  | some k ↦ elim p.client_id [
    | none ↦ update_row master p p.api_key k d
    | some c ↦
        update_row master p p.api_key (record k { client_id = none })
          (put_key id (λ r. record r { client_id = none }) d)
  ]
]

-- `delete_key`
unfoldable pub delete_key : ℕ → Db → Result (Unit {0}) × Db
unfolding key_row put_key note settle set_active
delete_key id d = elim (key_row d id) [
  | none ↦ (raise 404 Code.not_found, d)
  | some k ↦
      settle (raise 503 Code.db_unavailable) tt
        (note "key.delete" (key_resource k) (put_key id (set_active false) d))
]

-- `RequestLog.api_key_id == id`
abbrev pub of_key : ℕ → LogRow → Bool
of_key id l = elim l.api_key_id [ none ↦ false | some k ↦ k == id ]

-- the request logs let go of a key, and `db.delete(key)` with the snapshots that go with it
unfoldable pub erase_key : ℕ → Db → Db
erase_key id d = record d {
  now = record d.now {
    keys = without (has_id id) d.now.keys;
    logs = update_by (of_key id) (λ l. record l { api_key_id = none }) d.now.logs;
    snapshots = without (λ (x : Snapshot). x.api_key_id == id) d.now.snapshots;
  };
}

-- `purge_key`
unfoldable pub purge_key : ℕ → Db → Result (Unit {0}) × Db
unfolding key_row erase_key note settle
purge_key id d = elim (key_row d id) [
  | none ↦ (raise 404 Code.not_found, d)
  | some k ↦
      settle (raise 503 Code.db_unavailable) tt (note "key.purge" (key_resource k) (erase_key id d))
]

-- the assignments of `revive_key`
unfoldable pub revived : Option ℕ → KeyRow → KeyRow
revived requeue k = record k {
  key = record k.key {
    is_active = true;
    status = Status.active;
    cooldown_until = none;
    next_refresh_at = elim requeue [ none ↦ k.key.next_refresh_at | some now ↦ some now ];
  };
}

-- the last commit of `revive_key`, whose failure is passed over
unfoldable pub noted : KeyRow → Db → Result (Unit {0}) × Db
unfolding note commit
noted k d = (ok tt, (commit (note "key.revive" (key_resource k) d)).1)

-- `revive_key`, with the moment where the refresh is asked for, and with the test where it is asked
-- for
unfoldable pub revive_key :
    Option ℕ → Option (ℕ → Db → Result (Unit {0}) × Db) → ℕ → Db → Result (Unit {0}) × Db
unfolding key_row put_key revived settle noted
revive_key requeue test id d = elim (key_row d id) [
  | none ↦ (raise 404 Code.not_found, d)
  | some k ↦
      let first : Result (Unit {0}) × Db =
        settle (raise 503 Code.db_unavailable) tt (put_key id (revived requeue) d) in
      elim first.0 [
        | err f ↦ (err f, first.1)
        | ok u ↦ elim test [
          | none ↦ noted k first.1
          | some run ↦
              let tried = run id first.1 in
              elim tried.0 [ err f ↦ (err f, tried.1) | ok u ↦ noted k tried.1 ]
        ]
      ]
]

-- `reset_keys_quota`; no row has the status "quota_exceeded", which the program never sets
unfoldable pub reset_keys_quota : ℕ → Db → Result ℕ × Db
unfolding note settle
reset_keys_quota today d =
    let cleared : KeyRow → KeyRow =
      λ k. record k { daily_usage = 0; quota_reset_at = some today } in
    settle (raise 503 Code.db_unavailable) (length d.now.keys) (
      note "quota.reset" Resource.all_keys
        (record d { now = record d.now { keys = map cleared d.now.keys } }))
