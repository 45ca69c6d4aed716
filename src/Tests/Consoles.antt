-- ===== src/Tests/Consoles.antt =====
-- The console over two clients and two keys, one of which a resource is bound to.
use fcam_gateway.Prelude.{
  ℕ, ◌≡◌, ◌≢◌, ◌+◌, refl, Bool, true, false, Option, none, some, List, [], ◌∷◌, length,
  if◌then◌else◌, elem, find_by,
}
use fcam_gateway.Prelude.Text.{codes}
use fcam_gateway.Models.{raise, Code}
use fcam_gateway.Bindings.{Binding}
use fcam_gateway.Admin.{
  KeyRow, ClientRow, ClientStatus, LogRow, Store, Db, is_client, rollback, holds,
}
use fcam_gateway.Admin.Keys.{Master, CreateKey, purge_key}
use fcam_gateway.Admin.Clients.{CreateClient, new_client}
use fcam_gateway.Admin.Batch.{batch_keys}
use fcam_gateway.Admin.Requests.{Request, Console, requests}
use fcam_gateway.Admin.Rows.{IsKept}
use fcam_gateway.Admin.History.{requests-IsKept}
use fcam_gateway.Admin.Purged.{bound_key_kept}
use fcam_gateway.Admin.OneByOne.{soft_batch, delete_each, bare, soft_batch-delete_each}
use fcam_gateway.Tests.Data.{new_key}

-- a digest and a cipher for tests
abbrev pub master : Master
master = record { hash = λ t. length t; encrypt = λ t. 1 ∷ t }

abbrev pub decrypt : List ℕ → Option (List ℕ)
decrypt [] = none
decrypt (c ∷ cs) = some cs

abbrev pub a_row : ℕ → ℕ → KeyRow
a_row id hash = record {
  key = new_key id;
  client_id = none;
  hash = hash;
  last4 = codes "1234";
  name = none;
  plan_type = codes "free";
  daily_quota = 0;
  daily_usage = 0;
  quota_reset_at = none;
  account_username = none;
  account_password = none;
  account_verified_at = none;
}

abbrev pub a_form : CreateClient
a_form = record {
  name = codes "anna";
  daily_quota = none;
  rate_limit_per_min = 60;
  max_concurrent = 10;
  max_retries = 3;
  is_active = true;
  token = none;
}

-- client 1, with the token "first"
abbrev pub anna : ClientRow
anna = new_client master 5 1 a_form (codes "first")

abbrev bound : Binding
bound = record {
  place = record { client_id = 1; resource_type = codes "crawl"; resource_id = codes "j1" };
  api_key_id = 2;
  created_at = 5;
  expires_at = none;
}

abbrev a_store : Store
a_store = record {
  keys = a_row 1 11 ∷ a_row 2 12 ∷ [];
  clients = anna ∷ [];
  logs = record { client_id = some 1; api_key_id = some 1 } ∷ [];
  idempotency = 1 ∷ [];
  bindings = bound ∷ [];
  snapshots = [];
  audit = [];
}

abbrev pub a_db : Db
a_db = record { now = a_store; saved = a_store; outcomes = [] }

abbrev a_console : Console
a_console = record {
  master = some master;
  is_complex = λ t. true;
  decrypt = some decrypt;
  today = 6;
  from_iso = λ t. none;
}

abbrev pub a_key : CreateKey
a_key = record {
  api_key = codes "fc-0123456789";
  name = none;
  plan_type = codes "free";
  max_concurrent = 5;
  rate_limit_per_min = 60;
  is_active = false;
  provider = "firecrawl";
}

abbrev a_day : List Request
a_day =
    Request.create_key 3 a_key
    ∷ Request.delete_client 1
    ∷ Request.import_keys_text (λ n. 3 + n) a_key (codes "anna|fc-11112222")
    ∷ Request.purge_key 2
    ∷ []

requests-IsKept_example : IsKept (requests a_console a_day a_db)
unfolding new_client holds fcam_gateway.Prelude.all_of fcam_gateway.Prelude.distinct
requests-IsKept_example = requests-IsKept a_console a_day a_db (((refl, refl), (refl, refl)), refl)

bound_key_kept_example :
    ((purge_key 2 a_db).0 ≡ raise 503 Code.db_unavailable) × ((purge_key 2 a_db).1.saved ≡ a_store)
unfolding fcam_gateway.Admin.key_row find_by
bound_key_kept_example = bound_key_kept 2 a_db (a_row 2 12) refl refl

soft_batch-delete_each_example :
    bare (batch_keys (soft_batch (2 ∷ 7 ∷ 1 ∷ [])) a_db).1
    ≡ bare (delete_each (2 ∷ 7 ∷ 1 ∷ []) a_db)
soft_batch-delete_each_example = soft_batch-delete_each (2 ∷ 7 ∷ 1 ∷ []) a_db
