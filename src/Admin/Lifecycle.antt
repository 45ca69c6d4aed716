-- ===== src/Admin/Lifecycle.antt =====
-- What becomes of a client's token over the routes of app/api/control_plane.py.
use fcam_gateway.Prelude.{
  ℕ, ◌≡◌, ◌≢◌, refl, sym, ◌∙◌, ap, Bool, true, false, Option, none, some, List, [], ◌∷◌, arith,
  find_by, update_by, find_by-update_by, String,
}
use fcam_gateway.Models.{Result, ok, raise, failure, Code}
use fcam_gateway.Admin.{
  ClientRow, Resource, Store, Db, is_client, client_row, put_client, holds, note, rollback, settle,
}
use fcam_gateway.Admin.Settled.{settled}
use fcam_gateway.Admin.Keys.{Master}
use fcam_gateway.Admin.Clients.{
  CreateClient, new_client, add_client, choose_token, create_client, with_token, gone,
  delete_client, rotate_client_token, reveal_client_token, is_deleted,
}
use fcam_gateway.Admin.Tokens.{
  logins, admitted, find_login-found, lost-updated, holds-distinct, require-found, require-none,
}
use fcam_gateway.Api.Auth.{find_login, bearer_token, require_client}

abbrev clients_of : Db → List ClientRow
clients_of d = d.saved.clients

-- what is shown of a row that is not deleted
revealed :
    (decrypt : List ℕ → Option (List ℕ)) (id : ℕ) (d : Db) (c : ClientRow) (blob token : List ℕ)
    → client_row d id ≡ some c
    → is_deleted c ≡ false
    → c.token_ciphertext ≡ some blob
    → blob ≢ []
    → decrypt blob ≡ some token
    → (reveal_client_token (some decrypt) id d).0 ≡ ok token
unfolding reveal_client_token
revealed decrypt id d c [] token found kept stored whole opens = absurd (whole refl)
revealed decrypt id d c (b ∷ bs) token found kept stored whole opens =
    rw (reveal_client_token, found, kept, stored, opens) refl

new_client-is_deleted :
    (m : Master) (today id : ℕ) (p : CreateClient) (token : List ℕ)
    → is_deleted (new_client m today id p token) ≡ false
unfolding new_client
new_client-is_deleted m today id p token = ground arith

module _ (is_complex : List ℕ → Bool) (m : Master) (today id : ℕ) (generated : List ℕ)
    (p : CreateClient) (d d' : Db) (c : ClientRow) (token : List ℕ) where
  -- the row that a successful call has added
  pub record Created : Type 0 where
    pub row : c ≡ new_client m today id p token
    pub written : d'.saved.clients ≡ c ∷ d.now.clients

  pub create_client-Created :
      create_client is_complex (some m) today id generated p d ≡ (ok (c, token), d') → Created
  unfolding create_client note
  create_client-Created h = go (choose_token is_complex generated p.token) h
    where
      go :
          (o : Option (List ℕ))
          → (elim o as (λ x. Result (ClientRow × List ℕ) × Db) [
            | none ↦ (raise 400 Code.validation_error, d)
            | some t ↦
                settle
                  (raise 400 Code.validation_error)
                  (new_client m today id p t, t)
                  (note "client.create"
                    (Resource.client id)
                    (add_client (new_client m today id p t) d))
          ])
            ≡ (ok (c, token), d')
          → Created
      go none h = cc
      go (some t) h =
          let s =
            settled (failure 400 Code.validation_error) (new_client m today id p t, t) (c, token)
              (note "client.create" (Resource.client id) (add_client (new_client m today id p t) d))
              d' h in
          let row = ap (λ (x : ClientRow × List ℕ). x.0) s.answer in
          let same = ap (λ (x : ClientRow × List ℕ). x.1) s.answer in
          record {
            row = sym row ∙ ap (new_client m today id p) same;
            written = ap (λ (x : Store). x.clients) s.written ∙ ap (λ x. x ∷ d.now.clients) row;
          }

  -- A client that has been created is let through with the token in the answer, where it is active,
  -- and is told that it is disabled otherwise.
  pub created_token_admitted :
      (header : Option (List ℕ))
      → create_client is_complex (some m) today id generated p d ≡ (ok (c, token), d')
      → bearer_token header ≡ some token
      → require_client true (some m.hash) (logins d'.saved.clients) header ≡ admitted c.client
  unfolding find_login new_client
  created_token_admitted header h sent =
      let made = create_client-Created h in
      let hash : c.token_hash ≡ m.hash token = ap (λ (r : ClientRow). r.token_hash) made.row in
      require-found m.hash d'.saved.clients header token sent c.client
        (rw made.written (ground (arith, hash)))

  -- The token in the answer of `create_client` is the one that `reveal_client_token` shows in a later
  -- session, where decryption undoes the encryption under the master key and its results are not
  -- empty.
  pub created_token_revealed :
      (decrypt : List ℕ → Option (List ℕ))
      → create_client is_complex (some m) today id generated p d ≡ (ok (c, token), d')
      → ((t : List ℕ) → decrypt (m.encrypt t) ≡ some t)
      → ((t : List ℕ) → m.encrypt t ≢ [])
      → (reveal_client_token (some decrypt) id (rollback d')).0 ≡ ok token
  unfolding rollback client_row find_by new_client
  created_token_revealed decrypt h opens whole =
      let made = create_client-Created h in
      let same : c.client.id ≡ id = ap (λ (r : ClientRow). r.client.id) made.row in
      let stored : c.token_ciphertext ≡ some (m.encrypt token) =
        ap (λ (r : ClientRow). r.token_ciphertext) made.row in
      let kept : is_deleted c ≡ false =
        ap is_deleted made.row ∙ new_client-is_deleted m today id p token in
      revealed decrypt id (rollback d') c (m.encrypt token) token
        (rw made.written (ground (arith, same))) kept stored (whole token) (opens token)

module _ (m : Master) (id : ℕ) (d d' : Db) (c : ClientRow) (found : client_row d id ≡ some c) where
  -- the rows behind an assignment to this client that is committed
  updated :
      {A : Type 0} (f : ClientRow → ClientRow) (a x : A) (action : String)
      → ((r : ClientRow) → (f r).client.id ≡ r.client.id)
      → settle
          (raise 503 Code.db_unavailable)
          a
          (note action (Resource.client id) (put_client id f d))
        ≡ (ok x, d')
      → (d'.saved.clients ≡ update_by (is_client id) f d.now.clients)
        × (find_login (f c).token_hash (logins d'.saved.clients) ≡ some (f c).client)
  unfolding note put_client client_row
  updated f a x action keeps h =
      let s =
        settled (failure 503 Code.db_unavailable) a x
          (note action (Resource.client id) (put_client id f d)) d' h in
      let rows = ap (λ (x : Store). x.clients) s.written in
      (
        rows,
        rw rows (
            find_login-found id (f c) (update_by (is_client id) f d.now.clients)
              (holds-distinct _ s.sound)
              (find_by-update_by (is_client id) f d.now.clients c (λ r. rw (keeps r) refl) found)),
      )

  -- After a client's token has been replaced, the old token is unknown, and the new one is answered
  -- as the client's; the two are to have different digests, and the tables to satisfy their
  -- constraints.
  pub rotated_token_replaces :
      (old token shown : List ℕ) (old_header header : Option (List ℕ))
      → holds d.now ≡ true
      → rotate_client_token (some m) token id d ≡ (ok shown, d')
      → c.token_hash ≡ m.hash old
      → m.hash old ≢ m.hash token
      → bearer_token old_header ≡ some old
      → bearer_token header ≡ some token
      → (require_client true (some m.hash) (logins d'.saved.clients) old_header
          ≡ raise 401 Code.client_unauthorized)
        × (require_client true (some m.hash) (logins d'.saved.clients) header ≡ admitted c.client)
  unfolding rotate_client_token with_token client_row
  rotated_token_replaces old token shown old_header header sound h is_old ne sent_old sent =
      let u =
        updated (with_token m token) token shown "client.rotate" (λ r. refl)
          (rw (rotate_client_token, found) at h) in
      (
        require-none m.hash d'.saved.clients old_header old sent_old (
            rw (u.0, sym is_old)
              (lost-updated id (with_token m token) (m.hash token) c d.now.clients (λ r. refl)
                (rw is_old ne) (holds-distinct d.now sound) found)),
        require-found m.hash d'.saved.clients header token sent c.client u.1,
      )

  -- A client that has been deleted is told that it is disabled, with the token that was its own.
  pub deleted_client_refused :
      (token : List ℕ) (header : Option (List ℕ)) (u : Unit {0})
      → delete_client id d ≡ (ok u, d')
      → c.token_hash ≡ m.hash token
      → bearer_token header ≡ some token
      → require_client true (some m.hash) (logins d'.saved.clients) header
        ≡ raise 403 Code.client_disabled
  unfolding delete_client
  deleted_client_refused token header u h is_its sent =
      let r = updated gone tt u "client.delete" (λ r. refl) (rw (delete_client, found) at h) in
      require-found m.hash d'.saved.clients header token sent (gone c).client (rw (sym is_its) r.1)
