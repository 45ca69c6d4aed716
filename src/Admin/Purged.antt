-- ===== src/Admin/Purged.antt =====
-- The deletion of a key and of a client for good, in app/api/control_plane.py.
use fcam_gateway.Prelude.{
  ℕ, ◌≡◌, refl, true, false, not, some, List, ◌==◌, arith, elem, map, all_of, without-none,
  update_by-none, without-elem, referred, Bool-cases, inl, inr,
}
use fcam_gateway.Models.{Snapshot, Result, ok, raise, failure, Code}
use fcam_gateway.Bindings.{Binding}
use fcam_gateway.Admin.{
  KeyRow, ClientRow, Resource, Store, Db, key_ids, client_ids, key_row, client_row, integrity_error,
  holds, is_referred, note, rollback, commit, settle, key_resource,
}
use fcam_gateway.Admin.Settled.{settled}
use fcam_gateway.Admin.Keys.{of_key, erase_key, purge_key}
use fcam_gateway.Admin.Clients.{erase_client, purge_client}

-- the keys, and the clients, that resources are bound to
abbrev pub bound_keys : Store → List ℕ
bound_keys s = map (λ (b : Binding). b.api_key_id) s.bindings

abbrev pub bound_clients : Store → List ℕ
bound_clients s = map (λ (b : Binding). b.place.client_id) s.bindings

-- tables in which nothing refers to this key
pub record Untraced (id : ℕ) (s : Store) : Type 0 where
  pub keys : elem id (key_ids s) ≡ false
  pub logs : all_of (λ l. not (of_key id l)) s.logs ≡ true
  pub snapshots : all_of (λ (x : Snapshot). not (x.api_key_id == id)) s.snapshots ≡ true
  pub bindings : elem id (bound_keys s) ≡ false

holds-bindings :
    (s : Store)
    → holds s ≡ true
    → (all_of (λ (b : Binding). elem b.place.client_id (client_ids s)) s.bindings ≡ true)
      × (all_of (λ (b : Binding). elem b.api_key_id (key_ids s)) s.bindings ≡ true)
unfolding holds is_referred
holds-bindings s h = (ground (arith, h), ground (arith, h))

module _ (id : ℕ) (s : Store) (sound : holds s ≡ true) where
  unbound_key : elem id (key_ids s) ≡ false → elem id (bound_keys s) ≡ false
  unbound_key away =
      referred (λ (b : Binding). b.api_key_id) id (key_ids s) s.bindings (holds-bindings s sound).1
        away

  unbound_client : elem id (client_ids s) ≡ false → elem id (bound_clients s) ≡ false
  unbound_client away =
      referred (λ (b : Binding). b.place.client_id) id (client_ids s) s.bindings
        (holds-bindings s sound).0 away

-- After a purge of a key, neither the key nor a snapshot of it is there, and no request log and no
-- resource binding refers to it.
pub purged-Untraced :
    (id : ℕ) (d d' : Db) (k : KeyRow) (u : Unit {0})
    → key_row d id ≡ some k
    → purge_key id d ≡ (ok u, d')
    → Untraced id d'.saved
unfolding purge_key erase_key note
purged-Untraced id d d' k u found h =
    let s =
      settled (failure 503 Code.db_unavailable) tt u
        (note "key.purge" (key_resource k) (erase_key id d)) d' (rw (purge_key, found) at h) in
    let erased : Store = (erase_key id d).now in
    let gone = without-elem (λ (r : KeyRow). r.key.id) id d.now.keys in
    rw s.written (record {
      keys = gone;
      logs = update_by-none (of_key id) _ d.now.logs (λ l. refl);
      snapshots = without-none (λ (x : Snapshot). x.api_key_id == id) d.now.snapshots;
      bindings =
          unbound_key id (note "key.purge" (key_resource k) (erase_key id d)).now s.sound gone;
    })

commit-forbidden : (d : Db) → holds d.now ≡ false → commit d ≡ (integrity_error, rollback d)
unfolding commit
commit-forbidden d h = rw (commit, h) refl

-- the answer where a constraint forbids the commit
abbrev Refused : Db → Result (Unit {0}) × Db → Type 0
Refused d x = (x.0 ≡ raise 503 Code.db_unavailable) × (x.1.saved ≡ d.saved)

forbidden :
    (d e : Db)
    → holds e.now ≡ false
    → e.saved ≡ d.saved
    → Refused d (settle (raise 503 Code.db_unavailable) tt e)
unfolding settle rollback
forbidden d e h same = rw (settle, commit-forbidden e h) (refl, same)

-- A key to which a resource is bound cannot be purged: the request is answered by 503, and the tables
-- stay as they were, whatever the outcomes of the commits.
pub bound_key_kept :
    (id : ℕ) (d : Db) (k : KeyRow)
    → key_row d id ≡ some k
    → elem id (bound_keys d.now) ≡ true
    → ((purge_key id d).0 ≡ raise 503 Code.db_unavailable) × ((purge_key id d).1.saved ≡ d.saved)
unfolding erase_key note purge_key
bound_key_kept id d k found bound =
    let e = note "key.purge" (key_resource k) (erase_key id d) in
    rw (purge_key, found)
      (elim (Bool-cases (holds e.now)) [
        | inr broken ↦ forbidden d e broken refl
        | inl sound ↦ cc (
          unbound_key id e.now sound (without-elem (λ (r : KeyRow). r.key.id) id d.now.keys),
          bound,
        )
      ])

-- The same of a client that has resource bindings.
pub bound_client_kept :
    (id : ℕ) (d : Db) (c : ClientRow)
    → client_row d id ≡ some c
    → elem id (bound_clients d.now) ≡ true
    → ((purge_client id d).0 ≡ raise 503 Code.db_unavailable)
      × ((purge_client id d).1.saved ≡ d.saved)
unfolding erase_client note purge_client
bound_client_kept id d c found bound =
    let e = note "client.purge" (Resource.client id) (erase_client id d) in
    rw (purge_client, found)
      (elim (Bool-cases (holds e.now)) [
        | inr broken ↦ forbidden d e broken refl
        | inl sound ↦ cc (
          unbound_client id e.now sound
              (without-elem (λ (r : ClientRow). r.client.id) id d.now.clients),
          bound,
        )
      ])
