-- ===== src/Admin/Kept/Keys.antt =====
-- What the console's requests for one key in app/api/control_plane.py keep.
use fcam_gateway.Prelude.{
  ℕ, false, not, Option, none, some, List, all_of, all_of-without, all_of-map, if-elim,
}
use fcam_gateway.Models.{Result, ok, err, raise, Code}
use fcam_gateway.Admin.{KeyRow, Db, note, put_key, settle, has_id, key_row, key_resource}
use fcam_gateway.Admin.Rows.{
  key_ok, IsKept, new_row-ok, set_active-keeps, revived-keeps, rotated-keeps, patched-keeps,
}
use fcam_gateway.Admin.Keys.{
  Master, CreateKey, UpdateKey, is_provider, new_row, add_key, create_key, finish_update,
  update_row, update_key, revived, delete_key, erase_key, purge_key, noted, revive_key,
  reset_keys_quota, rotated, patched,
}
use fcam_gateway.Admin.Kept.Steps.{commit-IsKept, Ends, noted-IsKept, put_key-IsKept, found-Ends}

pub create_key-Ends :
    (m : Option Master) (today id : ℕ) (p : CreateKey) (d : Db)
    → IsKept d
    → Ends (create_key m today id p d)
unfolding create_key settle all_of
create_key-Ends none today id p d h = h
create_key-Ends (some m) today id p d h = if-elim Ends (not (is_provider p.provider)) h (
    noted-IsKept "key.create" _ (add_key (new_row m today id p) d)
      ((rw (all_of, new_row-ok m today id p) h.0.0, h.0.1), h.1))

rotated-IsKept :
    (m : Master) (text : List ℕ) (k : KeyRow) (d : Db)
    → IsKept d
    → IsKept (note "key.rotate" (key_resource k) (put_key k.key.id (rotated m text) d))
unfolding note
rotated-IsKept m text k d h = put_key-IsKept k.key.id (rotated m text) d (rotated-keeps m text) h

update_row-Ends :
    (m : Option Master) (p : UpdateKey) (text : Option (List ℕ)) (k : KeyRow) (d : Db)
    → IsKept d
    → Ends (update_row m p text k d)
unfolding update_row finish_update settle
update_row-Ends m p text k d h = go m text
  where
    finish : (r : KeyRow) (e : Db) → IsKept e → Ends (finish_update p r e)
    finish r e h' =
        noted-IsKept "key.update" _ _ (put_key-IsKept r.key.id (patched p) e (patched-keeps p) h')

    go : (m : Option Master) (text : Option (List ℕ)) → Ends (update_row m p text k d)
    go m none = finish k d h
    go none (some t) = h
    go (some m') (some t) = finish (rotated m' t k) _ (rotated-IsKept m' t k d h)

pub update_key-Ends :
    (m : Option Master) (id : ℕ) (p : UpdateKey) (d : Db) → IsKept d → Ends (update_key m id p d)
unfolding update_key
update_key-Ends m id p d h = found-Ends (key_row d id) _ _ d h (λ k. go k p.client_id)
  where
    go :
        (k : KeyRow) (c : Option ℕ)
        → Ends (elim c as (λ x. Result KeyRow × Db) [
          | none ↦ update_row m p p.api_key k d
          | some i ↦
              update_row m p p.api_key
                (record k { client_id = none })
                (put_key id (λ r. record r { client_id = none }) d)
        ])
    go k none = update_row-Ends m p p.api_key k d h
    go k (some i) =
        update_row-Ends m p p.api_key (record k { client_id = none }) _
          (put_key-IsKept id (λ r. record r { client_id = none }) d (λ r h'. h') h)

pub delete_key-Ends : (id : ℕ) (d : Db) → IsKept d → Ends (delete_key id d)
unfolding delete_key settle
delete_key-Ends id d h =
    found-Ends (key_row d id) _ _ d h
      (λ k. noted-IsKept "key.delete" _ _ (put_key-IsKept id _ d (set_active-keeps false) h))

pub erase_key-IsKept : (id : ℕ) (d : Db) → IsKept d → IsKept (erase_key id d)
unfolding erase_key
erase_key-IsKept id d h =
    (((all_of-without key_ok (has_id id) d.now.keys h.0.0.0, h.0.0.1), h.0.1), h.1)

pub purge_key-Ends : (id : ℕ) (d : Db) → IsKept d → Ends (purge_key id d)
unfolding purge_key settle
purge_key-Ends id d h =
    found-Ends (key_row d id) _ _ d h (λ k. noted-IsKept "key.purge" _ _ (erase_key-IsKept id d h))

pub revive_key-Ends :
    (requeue : Option ℕ) (id : ℕ) (d : Db) → IsKept d → Ends (revive_key requeue none id d)
unfolding revive_key settle noted
revive_key-Ends requeue id d h = found-Ends (key_row d id) _ _ d h (λ k.
    go k (settle (raise 503 Code.db_unavailable) tt (put_key id (revived requeue) d))
      (commit-IsKept _ (put_key-IsKept id (revived requeue) d (revived-keeps requeue) h)))
  where
    go :
        (k : KeyRow) (x : Result (Unit {0}) × Db)
        → IsKept x.1
        → Ends (elim x.0 as (λ y. Result (Unit {0}) × Db) [
          | err f ↦ (err f, x.1)
          | ok u ↦ noted k x.1
        ])
    go k (err f, e) h' = h'
    go k (ok u, e) h' = noted-IsKept "key.revive" _ e h'

pub reset_keys_quota-Ends : (today : ℕ) (d : Db) → IsKept d → Ends (reset_keys_quota today d)
unfolding reset_keys_quota settle
reset_keys_quota-Ends today d h =
    noted-IsKept "quota.reset" _ _
      (((all_of-map key_ok _ d.now.keys (λ k h'. h') h.0.0.0, h.0.0.1), h.0.1), h.1)
