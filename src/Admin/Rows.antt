-- ===== src/Admin/Rows.antt =====
-- What a row of the console in app/db/models.py is to satisfy, and the assignments of
-- app/api/control_plane.py that keep it.
use fcam_gateway.Prelude.{
  ℕ, ◌≡◌, refl, Bool, true, false, ◌&&◌, not, Option, none, some, List, arith, all_of, if-elim,
}
use fcam_gateway.Models.{Status}
use fcam_gateway.Admin.{KeyRow, ClientRow, active, Store, Db}
use fcam_gateway.Admin.Kept.{Kept, IsSound}
use fcam_gateway.Admin.Keys.{
  Master, CreateKey, UpdateKey, given, set_active, set_rate, set_concurrent, new_row, revived,
  rotated, patched,
}
use fcam_gateway.Admin.Clients.{
  CreateClient, UpdateClient, new_client, with_token, gone, truth, status_of,
}
use fcam_gateway.Admin.Clients
use fcam_gateway.Admin.Batch
use fcam_gateway.Admin.Batch.{
  BatchKeys, BatchPatch, cooled_off, assigned, BatchAction, enable, disable, delete,
  apply_batch_action_to_client,
}

-- a key that is disabled is not active
abbrev pub key_ok : KeyRow → Bool
key_ok k = elim k.key.status [ Status.disabled ↦ not k.key.is_active | _ ↦ true ]

-- a client is active where its status says so
abbrev pub client_ok : ClientRow → Bool
client_ok c = elim c.status [ active ↦ c.client.is_active | _ ↦ not c.client.is_active ]

abbrev pub Consistent : Store → Type 0
Consistent s = (all_of key_ok s.keys ≡ true) × (all_of client_ok s.clients ≡ true)

abbrev pub IsKept : Db → Type 0
IsKept d = Kept Consistent d × IsSound d

-- an assignment keeps what is to hold of a row
abbrev pub KeepsKey : (KeyRow → KeyRow) → Type 0
KeepsKey f = (k : KeyRow) → key_ok k ≡ true → key_ok (f k) ≡ true

abbrev pub KeepsClient : (ClientRow → ClientRow) → Type 0
KeepsClient f = (c : ClientRow) → client_ok c ≡ true → client_ok (f c) ≡ true

given-keeps {ℓ κ} :
    {A : Type ℓ} {B : Type κ} (ok : B → Bool) (f : A → B → B) (o : Option A)
    → ((a : A) (b : B) → ok b ≡ true → ok (f a b) ≡ true)
    → (b : B) → ok b ≡ true
    → ok (given f o b) ≡ true
given-keeps ok f none keeps b h = h
given-keeps ok f (some a) keeps b h = keeps a b h

set_active-ok : (b : Bool) (k : KeyRow) → key_ok (set_active b k) ≡ true
unfolding set_active
set_active-ok true k = ground arith
set_active-ok false k = refl

pub set_active-keeps : (b : Bool) → KeepsKey (set_active b)
set_active-keeps b k h = set_active-ok b k

pub new_row-ok : (m : Master) (today id : ℕ) (p : CreateKey) → key_ok (new_row m today id p) ≡ true
unfolding new_row
new_row-ok m today id p = ground arith

pub revived-keeps : (requeue : Option ℕ) → KeepsKey (revived requeue)
unfolding revived
revived-keeps requeue k h = refl

pub rotated-keeps : (m : Master) (text : List ℕ) → KeepsKey (rotated m text)
unfolding rotated
rotated-keeps m text k h = h

pub patched-keeps : (p : UpdateKey) → KeepsKey (patched p)
unfolding patched
patched-keeps p k h = given-keeps key_ok set_active p.is_active set_active-keeps _ (
    given-keeps key_ok set_rate p.rate_limit_per_min (λ n r h'. h') _
      (given-keeps key_ok set_concurrent p.max_concurrent (λ n r h'. h') _
        (given-keeps key_ok _ p.daily_quota (λ n r h'. h') _
          (given-keeps key_ok _ p.plan_type (λ n r h'. h') _
            (given-keeps key_ok _ p.name (λ n r h'. h') k h)))))

batch_patched-keeps : (p : BatchPatch) → KeepsKey (Batch.patched p)
unfolding Batch.patched
batch_patched-keeps p k h = given-keeps key_ok set_active p.is_active set_active-keeps _ (
    given-keeps key_ok set_rate p.rate_limit_per_min (λ n r h'. h') _
      (given-keeps key_ok set_concurrent p.max_concurrent (λ n r h'. h') _
        (given-keeps key_ok _ p.daily_quota (λ n r h'. h') _
          (given-keeps key_ok _ p.plan_type (λ n r h'. h') _
            (given-keeps key_ok _ p.name (λ n r h'. h') k h)))))

cooled_off-keeps : KeepsKey cooled_off
unfolding cooled_off
cooled_off-keeps k h = ground arith

pub assigned-keeps : (p : BatchKeys) → KeepsKey (assigned p)
unfolding assigned
assigned-keeps p k h =
    let h1 = if-elim (λ r. key_ok r ≡ true) p.reset_cooldown (cooled_off-keeps k h) h in
    let h2 = batch_patched-keeps p.patch _ h1 in
    if-elim (λ r. key_ok r ≡ true) (p.soft_delete && not p.purge) (set_active-ok false _) h2

pub new_client-ok :
    (m : Master) (today id : ℕ) (p : CreateClient) (token : List ℕ)
    → client_ok (new_client m today id p token) ≡ true
unfolding new_client
new_client-ok m today id p token = ground arith

pub with_token-keeps : (m : Master) (token : List ℕ) → KeepsClient (with_token m token)
unfolding with_token
with_token-keeps m token c h = h

client_active-keeps : (b : Option Bool) → KeepsClient (Clients.set_active b)
client_active-keeps none c h = refl
client_active-keeps (some true) c h = refl
client_active-keeps (some false) c h = refl

set_rate-keeps : (n : Option ℕ) → KeepsClient (Clients.set_rate n)
set_rate-keeps none c h = h
set_rate-keeps (some n) c h = h

set_concurrent-keeps : (n : Option ℕ) → KeepsClient (Clients.set_concurrent n)
set_concurrent-keeps none c h = h
set_concurrent-keeps (some n) c h = h

set_retries-keeps : (n : Option ℕ) → KeepsClient (Clients.set_retries n)
set_retries-keeps none c h = h
set_retries-keeps (some n) c h = h

pub client_patched-keeps : (p : UpdateClient) → KeepsClient (Clients.patched p)
unfolding Clients.patched
client_patched-keeps p c h =
    given-keeps client_ok Clients.set_active p.is_active client_active-keeps _ (
      given-keeps client_ok Clients.set_retries p.max_retries set_retries-keeps _ (
        given-keeps client_ok Clients.set_concurrent p.max_concurrent set_concurrent-keeps _ (
          given-keeps client_ok Clients.set_rate p.rate_limit_per_min set_rate-keeps _
            (given-keeps client_ok Clients.set_quota p.daily_quota (λ n r h'. h') c h))))

pub batch_action-keeps : (a : BatchAction) → KeepsClient (apply_batch_action_to_client a)
unfolding apply_batch_action_to_client
batch_action-keeps enable c h = refl
batch_action-keeps disable c h = refl
batch_action-keeps delete c h = refl
