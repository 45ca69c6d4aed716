-- ===== src/Tests/Tokens.antt =====
-- A client's token from its creation to its end.
use fcam_gateway.Prelude.{
  ℕ, ◌≡◌, ◌≢◌, refl, Bool, true, false, Option, none, some, List, [], ◌∷◌, if◌then◌else◌, elem,
  find_by, arith, length,
}
use fcam_gateway.Prelude.Text.{codes}
use fcam_gateway.Models.{Result, ok, raise, Code}
use fcam_gateway.Api.Auth.{require_client}
use fcam_gateway.Admin.{ClientRow, Db, Store, is_client, client_row, rollback}
use fcam_gateway.Admin.Clients.{
  new_client, create_client, reveal_client_token, delete_client, rotate_client_token,
}
use fcam_gateway.Admin.Batch.{
  BatchAction, apply_batch_action_to_client, batch_update_clients, BatchClientResponse,
}
use fcam_gateway.Admin.Tokens.{logins, admitted}
use fcam_gateway.Admin.Lifecycle.{
  created_token_admitted, created_token_revealed, rotated_token_replaces,
}
use fcam_gateway.Admin.Whole.{Counted, batch_applied}
use fcam_gateway.Tests.Consoles.{master, decrypt, a_form, anna, a_db}

abbrev all_complex : List ℕ → Bool
all_complex t = true

abbrev empty_db : Db
empty_db = record a_db {
  now = record a_db.now { clients = []; logs = []; idempotency = []; bindings = [] };
}

abbrev created : Result (ClientRow × List ℕ) × Db
created = create_client all_complex (some master) 5 1 (codes "first") a_form empty_db

created_token_admitted_example :
    require_client true
      (some master.hash)
      (logins created.1.saved.clients)
      (some (codes "Bearer first"))
    ≡ admitted anna.client
unfolding create_client fcam_gateway.Prelude.distinct fcam_gateway.Prelude.all_of
    fcam_gateway.Api.Auth.bearer_token
created_token_admitted_example =
    created_token_admitted all_complex master 5 1 (codes "first") a_form empty_db created.1 anna
      (codes "first") (some (codes "Bearer first")) refl refl

created_token_revealed_example :
    (reveal_client_token (some decrypt) 1 (rollback created.1)).0 ≡ ok (codes "first")
unfolding create_client fcam_gateway.Prelude.distinct fcam_gateway.Prelude.all_of
created_token_revealed_example =
    created_token_revealed all_complex master 5 1 (codes "first") a_form empty_db created.1 anna
      (codes "first") decrypt refl (λ t. refl) (λ t e. cc e)

abbrev rotated : Db
rotated = (rotate_client_token (some master) (codes "second") 1 a_db).1

rotated_token_replaces_example :
    (require_client true
        (some master.hash)
        (logins rotated.saved.clients)
        (some (codes "Bearer first"))
      ≡ raise 401 Code.client_unauthorized)
    × (require_client true
          (some master.hash)
          (logins rotated.saved.clients)
          (some (codes "Bearer second"))
        ≡ admitted anna.client)
unfolding client_row find_by new_client fcam_gateway.Admin.holds fcam_gateway.Prelude.distinct
    fcam_gateway.Prelude.all_of rotate_client_token fcam_gateway.Prelude.update_by
    fcam_gateway.Api.Auth.bearer_token
rotated_token_replaces_example =
    rotated_token_replaces master 1 a_db rotated anna refl (codes "first") (codes "second")
      (codes "second") (some (codes "Bearer first")) (some (codes "Bearer second")) refl refl refl
      (λ e. omega (arith, e)) refl refl

abbrev ended : Db
ended = (delete_client 1 a_db).1

abbrev an_answer : BatchClientResponse
an_answer = record { success_count = 1; failed_count = 1; failed_items = 9 ∷ [] }

abbrev batched : Db
batched = (batch_update_clients BatchAction.disable (1 ∷ 9 ∷ 1 ∷ []) a_db).1

batch_applied_example :
    Counted (1 ∷ 9 ∷ 1 ∷ []) an_answer
    × ((i : ℕ) (c : ClientRow)
        → client_row a_db i ≡ some c
        → find_by (is_client i) batched.saved.clients
          ≡ some (
              if elem i (1 ∷ 9 ∷ 1 ∷ [])
              then apply_batch_action_to_client BatchAction.disable c
              else c))
unfolding batch_update_clients fcam_gateway.Prelude.distinct find_by new_client
    fcam_gateway.Prelude.update_by fcam_gateway.Prelude.all_of
batch_applied_example =
    batch_applied BatchAction.disable (1 ∷ 9 ∷ 1 ∷ []) a_db batched an_answer refl
