-- ===== src/Admin/Kept/Batches.antt =====
-- What the console's batches in app/api/control_plane.py keep.
use text.Mathlib.Text.{◌==◌ as str_eq}
use fcam_gateway.Prelude.{
  ℕ, if◌then◌else◌, ◌&&◌, not, Option, none, some, List, [], ◌∷◌, if-elim, String, length, ltb,
}
use fcam_gateway.Models.{Result, ok, raise, Code}
use fcam_gateway.Admin.{KeyRow, Db, rollback, note, put_key, settle, key_row, key_resource}
use fcam_gateway.Admin.Rows.{IsKept, assigned-keeps, batch_action-keeps}
use fcam_gateway.Admin.Keys.{erase_key}
use fcam_gateway.Admin.Batch.{
  BatchKeys, Item, fine, refused, item, assigned, apply_batch_action_to_client, batch_one,
  batch_rounds, batch_keys, is_changed, are_mixed, providers, BatchAction, present, apply_all,
  batch_update_clients, deduplicate_client_ids,
}
use fcam_gateway.Admin.Kept.Keys.{erase_key-IsKept}
use fcam_gateway.Admin.Kept.Steps.{
  rollback-IsKept, commit-IsKept, Ends, noted-IsKept, put_key-IsKept, put_client-IsKept,
}

item-Ends : (p : BatchKeys) (id : ℕ) (d : Db) → IsKept d → Ends (batch_one p id d)
unfolding batch_one settle
item-Ends p id d h = go (key_row d id)
  where
    d1 : Db
    d1 = put_key id (assigned p) d

    h1 : IsKept d1
    h1 = put_key-IsKept id (assigned p) d (assigned-keeps p) h

    go :
        (o : Option KeyRow)
        → Ends (elim o as (λ x. Item × Db) [
          | none ↦ (refused id Code.not_found, rollback d)
          | some k ↦
              let k' = assigned p k in
              let purged : Result (Unit {0}) × Db =
                settle
                  (raise 500 Code.internal_error)
                  tt
                  (note "key.batch_purge" (key_resource k') (erase_key id d1)) in
              let written : Result (Unit {0}) × Db =
                settle (raise 500 Code.internal_error) tt (note "key.batch" (key_resource k') d1) in
              if p.purge
              then (item id none purged.0, purged.1)
              else if is_changed p
              then (item id (some k') written.0, written.1)
              else (fine id (some k'), d1)
        ])
    go none = rollback-IsKept d h
    go (some k) =
        if-elim Ends p.purge (noted-IsKept "key.batch_purge" _ _ (erase_key-IsKept id d1 h1))
          (if-elim Ends (is_changed p) (noted-IsKept "key.batch" _ d1 h1) h1)

batch_rounds-Ends : (p : BatchKeys) (ids : List ℕ) (d : Db) → IsKept d → Ends (batch_rounds p ids d)
unfolding batch_rounds
batch_rounds-Ends p [] d h = h
batch_rounds-Ends p (id ∷ ids) d h = batch_rounds-Ends p ids _ (item-Ends p id d h)

pub batch_keys-Ends : (p : BatchKeys) (d : Db) → IsKept d → Ends (batch_keys p d)
unfolding batch_keys
batch_keys-Ends p d h = go p.test
  where
    all : List Item × Db
    all = batch_rounds p p.ids d

    go :
        (o : Option String)
        → Ends (elim o as (λ x. Result (List Item) × Db) [
          | none ↦ (ok all.0, all.1)
          | some mode ↦
              if not (str_eq mode "scrape")
              then (raise 400 Code.validation_error, d)
              else if ltb 1 (length p.ids) && are_mixed (providers p.ids d)
              then (raise 400 Code.mixed_provider_batch, d)
              else (ok all.0, all.1)
        ])
    go none = batch_rounds-Ends p p.ids d h
    go (some mode) = if-elim Ends (not (str_eq mode "scrape")) h (
        if-elim Ends (ltb 1 (length p.ids) && are_mixed (providers p.ids d)) h
          (batch_rounds-Ends p p.ids d h))

apply_all-IsKept : (a : BatchAction) (ids : List ℕ) (d : Db) → IsKept d → IsKept (apply_all a ids d)
unfolding apply_all note
apply_all-IsKept a [] d h = h
apply_all-IsKept a (i ∷ ids) d h =
    apply_all-IsKept a ids _
      (put_client-IsKept i (apply_batch_action_to_client a) d (batch_action-keeps a) h)

pub batch_update_clients-Ends :
    (a : BatchAction) (ids : List ℕ) (d : Db) → IsKept d → Ends (batch_update_clients a ids d)
unfolding batch_update_clients settle
batch_update_clients-Ends a ids d h =
    commit-IsKept _ (apply_all-IsKept a (present d (deduplicate_client_ids ids)) d h)
