-- ===== src/Admin/Requests.antt =====
-- The requests to the console of app/api/control_plane.py, each in a session of its own.
use fcam_gateway.Prelude.{ℕ, Bool, Option, none, List, [], ◌∷◌}
use fcam_gateway.Admin.{Db, rollback}
use fcam_gateway.Admin.Keys
use fcam_gateway.Admin.Keys.{Master, CreateKey, UpdateKey}
use fcam_gateway.Admin.Clients
use fcam_gateway.Admin.Clients.{CreateClient, UpdateClient}
use fcam_gateway.Admin.Import
use fcam_gateway.Admin.Batch
use fcam_gateway.Admin.Batch.{BatchKeys, BatchAction}

-- what a request asks for, of those that write keys or clients by themselves: not the tests of a
-- key and the refreshes of credits, which ask the upstream too. The ids and tokens that are made on the way stand
-- first
pub data Request : Type 0 where
  create_key : ℕ → CreateKey → Request
  update_key : ℕ → UpdateKey → Request
  delete_key purge_key : ℕ → Request
  revive_key : Option ℕ → ℕ → Request
  reset_keys_quota : Request
  batch_keys : BatchKeys → Request
  import_keys_text : (ℕ → ℕ) → CreateKey → List ℕ → Request
  create_client : ℕ → List ℕ → CreateClient → Request
  update_client : ℕ → UpdateClient → Request
  delete_client purge_client : ℕ → Request
  rotate_client_token : List ℕ → ℕ → Request
  reveal_client_token : ℕ → Request
  batch_update_clients : BatchAction → List ℕ → Request

-- the program's settings: the master key, the test of a token, the decryption, the date, and
-- `datetime.fromisoformat`
pub record Console : Type 0 where
  pub master : Option Master
  pub is_complex : List ℕ → Bool
  pub decrypt : Option (List ℕ → Option (List ℕ))
  pub today : ℕ
  pub from_iso : List ℕ → Option ℕ

module _ (c : Console) where
  -- what the handler leaves
  unfoldable pub handle : Request → Db → Db
  handle (create_key id p) d = (Keys.create_key c.master c.today id p d).1
  handle (update_key id p) d = (Keys.update_key c.master id p d).1
  handle (delete_key id) d = (Keys.delete_key id d).1
  handle (purge_key id) d = (Keys.purge_key id d).1
  handle (revive_key requeue id) d = (Keys.revive_key requeue none id d).1
  handle reset_keys_quota d = (Keys.reset_keys_quota c.today d).1
  handle (batch_keys p) d = (Batch.batch_keys p d).1
  handle (import_keys_text ids p text) d =
      (Import.import_keys_text c.from_iso c.master c.today ids p text d).1
  handle (create_client id token p) d =
      (Clients.create_client c.is_complex c.master c.today id token p d).1
  handle (update_client id p) d = (Clients.update_client id p d).1
  handle (delete_client id) d = (Clients.delete_client id d).1
  handle (purge_client id) d = (Clients.purge_client id d).1
  handle (rotate_client_token token id) d = (Clients.rotate_client_token c.master token id d).1
  handle (reveal_client_token id) d = (Clients.reveal_client_token c.decrypt id d).1
  handle (batch_update_clients action ids) d = (Batch.batch_update_clients action ids d).1

  -- requests one after the other, each of which closes its session
  unfoldable pub requests : List Request → Db → Db
  unfolding handle rollback
  requests [] d = d
  requests (r ∷ rs) d = requests rs (rollback (handle r d))
