-- ===== src/Admin/Kept/Clients.antt =====
-- What the console's requests for clients in app/api/control_plane.py keep.
use fcam_gateway.Prelude.{
  ℕ, refl, Bool, Option, none, some, List, [], ◌∷◌, all_of, all_of-update_by, all_of-without,
  if-elim,
}
use fcam_gateway.Models.{Result, ok, raise, Code}
use fcam_gateway.Admin.{Resource, Db, commit, note, settle, is_client, client_row}
use fcam_gateway.Admin.Rows.{
  key_ok, client_ok, IsKept, new_client-ok, with_token-keeps, client_patched-keeps,
}
use fcam_gateway.Admin.Keys.{Master}
use fcam_gateway.Admin.Clients.{
  CreateClient, UpdateClient, new_client, add_client, choose_token, create_client, update_client,
  delete_client, gone, is_deleted, nulls, erase_client, purge_client, with_token, patched,
  rotate_client_token, reveal_client_token,
}
use fcam_gateway.Admin.Kept.Steps.{
  rollback-IsKept, Ends, noted-IsKept, put_client-IsKept, found-Ends,
}

pub create_client-Ends :
    (ok? : List ℕ → Bool) (m : Option Master) (today id : ℕ) (token : List ℕ) (p : CreateClient)
    (d : Db)
    → IsKept d
    → Ends (create_client ok? m today id token p d)
unfolding create_client settle all_of
create_client-Ends ok? none today id token p d h = h
create_client-Ends ok? (some m) today id token p d h =
    found-Ends (choose_token ok? token p.token) _ _ d h (λ t.
      noted-IsKept "client.create" _ (add_client (new_client m today id p t) d)
        (((h.0.0.0, rw (all_of, new_client-ok m today id p t) h.0.0.1), h.0.1), h.1))

pub update_client-Ends :
    (id : ℕ) (p : UpdateClient) (d : Db) → IsKept d → Ends (update_client id p d)
unfolding update_client settle
update_client-Ends id p d h = found-Ends (client_row d id) _ _ d h (λ c.
    if-elim Ends (is_deleted c) h (
      if-elim Ends (nulls p) (rollback-IsKept d h) (
        noted-IsKept "client.update" _ _
          (put_client-IsKept id (patched p) d (client_patched-keeps p) h))))

pub delete_client-Ends : (id : ℕ) (d : Db) → IsKept d → Ends (delete_client id d)
unfolding delete_client settle
delete_client-Ends id d h =
    found-Ends (client_row d id) _ _ d h
      (λ c. noted-IsKept "client.delete" _ _ (put_client-IsKept id gone d (λ r h'. refl) h))

erase_client-IsKept : (id : ℕ) (d : Db) → IsKept d → IsKept (erase_client id d)
unfolding erase_client
erase_client-IsKept id d h = (
  (
    (
      all_of-update_by key_ok _ _ d.now.keys (λ k h'. h') h.0.0.0,
      all_of-without client_ok (is_client id) d.now.clients h.0.0.1,
    ),
    h.0.1,
  ),
  h.1,
)

pub purge_client-Ends : (id : ℕ) (d : Db) → IsKept d → Ends (purge_client id d)
unfolding purge_client settle
purge_client-Ends id d h =
    found-Ends (client_row d id) _ _ d h
      (λ c. noted-IsKept "client.purge" _ _ (erase_client-IsKept id d h))

pub rotate_client_token-Ends :
    (m : Option Master) (token : List ℕ) (id : ℕ) (d : Db)
    → IsKept d
    → Ends (rotate_client_token m token id d)
unfolding rotate_client_token settle
rotate_client_token-Ends none token id d h = h
rotate_client_token-Ends (some m) token id d h = found-Ends (client_row d id) _ _ d h (λ c.
    noted-IsKept "client.rotate" _ _
      (put_client-IsKept id (with_token m token) d (with_token-keeps m token) h))

pub reveal_client_token-Ends :
    (decrypt : Option (List ℕ → Option (List ℕ))) (id : ℕ) (d : Db)
    → IsKept d
    → Ends (reveal_client_token decrypt id d)
unfolding reveal_client_token
reveal_client_token-Ends none id d h = h
reveal_client_token-Ends (some decrypt) id d h =
    found-Ends (client_row d id) _ _ d h
      (λ c. if-elim Ends (is_deleted c) h (go c.token_ciphertext))
  where
    told : Db
    told = (commit (note "client.token_reveal" (Resource.client id) d)).1

    go :
        (o : Option (List ℕ))
        → Ends (elim o as (λ x. Result (List ℕ) × Db) [
          | none ↦ (raise 404 Code.token_not_stored, d)
          | some blob ↦ elim blob [
            | [] ↦ (raise 404 Code.token_not_stored, d)
            | b ∷ bs ↦ elim (decrypt (b ∷ bs)) [
              | none ↦ (raise 500 Code.decryption_failed, d)
              | some token ↦ (ok token, told)
            ]
          ]
        ])
    go none = h
    go (some []) = h
    go (some (b ∷ bs)) =
        found-Ends (decrypt (b ∷ bs)) _ _ d h (λ t. noted-IsKept "client.token_reveal" _ d h)
