-- ===== src/Admin/History.antt =====
-- The tables after any requests to the console of app/api/control_plane.py.
use fcam_gateway.Prelude.{List, [], ◌∷◌}
use fcam_gateway.Admin.{Db}
use fcam_gateway.Admin.Rows.{IsKept}
use fcam_gateway.Admin.Kept.Steps.{rollback-IsKept}
use fcam_gateway.Admin.Kept.Keys.{
  create_key-Ends, update_key-Ends, delete_key-Ends, purge_key-Ends, revive_key-Ends,
  reset_keys_quota-Ends,
}
use fcam_gateway.Admin.Kept.Clients.{
  create_client-Ends, update_client-Ends, delete_client-Ends, purge_client-Ends,
  rotate_client_token-Ends, reveal_client_token-Ends,
}
use fcam_gateway.Admin.Kept.Batches.{batch_keys-Ends, batch_update_clients-Ends}
use fcam_gateway.Admin.Kept.Imports.{import_keys_text-Ends}
use fcam_gateway.Admin.Requests.{Request, Console, handle, requests}

module _ (c : Console) where
  handle-IsKept : (r : Request) (d : Db) → IsKept d → IsKept (handle c r d)
  unfolding handle
  handle-IsKept (Request.create_key id p) d h = create_key-Ends c.master c.today id p d h
  handle-IsKept (Request.update_key id p) d h = update_key-Ends c.master id p d h
  handle-IsKept (Request.delete_key id) d h = delete_key-Ends id d h
  handle-IsKept (Request.purge_key id) d h = purge_key-Ends id d h
  handle-IsKept (Request.revive_key requeue id) d h = revive_key-Ends requeue id d h
  handle-IsKept Request.reset_keys_quota d h = reset_keys_quota-Ends c.today d h
  handle-IsKept (Request.batch_keys p) d h = batch_keys-Ends p d h
  handle-IsKept (Request.import_keys_text ids p text) d h =
      import_keys_text-Ends c.from_iso c.master c.today ids p text d h
  handle-IsKept (Request.create_client id token p) d h =
      create_client-Ends c.is_complex c.master c.today id token p d h
  handle-IsKept (Request.update_client id p) d h = update_client-Ends id p d h
  handle-IsKept (Request.delete_client id) d h = delete_client-Ends id d h
  handle-IsKept (Request.purge_client id) d h = purge_client-Ends id d h
  handle-IsKept (Request.rotate_client_token token id) d h =
      rotate_client_token-Ends c.master token id d h
  handle-IsKept (Request.reveal_client_token id) d h = reveal_client_token-Ends c.decrypt id d h
  handle-IsKept (Request.batch_update_clients action ids) d h =
      batch_update_clients-Ends action ids d h

  -- Over any sequence of the console's requests that create, update, delete, purge, revive (without
  -- its default test), reset, import or batch (without tests) keys, or that write clients; refused
  -- and failed ones included: the tables, those that were committed last too, keep it that a
  -- disabled key is not active and that a client is active exactly where its status says so; and
  -- the committed ones satisfy the unique and foreign keys.
  pub requests-IsKept : (rs : List Request) (d : Db) → IsKept d → IsKept (requests c rs d)
  unfolding requests
  requests-IsKept [] d h = h
  requests-IsKept (r ∷ rs) d h =
      requests-IsKept rs _ (rollback-IsKept (handle c r d) (handle-IsKept r d h))
