-- ===== src/Admin/Batch.antt =====
-- The console's batches, in app/api/control_plane.py and app/core/batch_clients.py. The tests that
-- `batch_keys` starts in other sessions at the end are left out.
use text.Mathlib.Text.{◌==◌ as str_eq}
use fcam_gateway.Prelude.{
  ℕ, ◌+◌, Bool, true, false, ◌&&◌, ◌||◌, not, Option, none, some, List, [], ◌∷◌, if◌then◌else◌,
  String, elem, length, is_some, ltb,
}
use fcam_gateway.Models.{Status, Result, ok, err, raise, Code}
use fcam_gateway.Admin.{
  KeyRow, ClientRow, active, disabled, Resource, Db, rollback, note, key_row, client_row, put_key,
  put_client, key_resource, settle,
}
use fcam_gateway.Admin.Keys.{given, set_active, set_rate, set_concurrent, erase_key}
use fcam_gateway.Admin.Clients.{gone}

-- the fields of `BatchKeyPatch` that are set; a null counts for the name alone
pub record BatchPatch : Type 0 where
  pub name : Option (Option (List ℕ))
  pub plan_type : Option (List ℕ)
  pub daily_quota : Option ℕ
  pub max_concurrent : Option ℕ
  pub rate_limit_per_min : Option ℕ
  pub is_active : Option Bool

-- `BatchKeysRequest`, with the mode of the test
pub record BatchKeys : Type 0 where
  pub ids : List ℕ
  pub patch : BatchPatch
  pub reset_cooldown : Bool
  pub soft_delete : Bool
  pub purge : Bool
  pub test : Option String

-- an entry of `results`
pub data Item : Type 0 where
  fine : ℕ → Option KeyRow → Item
  refused : ℕ → Code → Item

-- `payload.reset_cooldown`
unfoldable pub cooled_off : KeyRow → KeyRow
cooled_off k = record k {
  key = record k.key {
    cooldown_until = none;
    status = elim k.key.status [
      | Status.cooling ↦ if k.key.is_active then Status.active else Status.cooling
      | Status.failed ↦ if k.key.is_active then Status.active else Status.failed
      | s ↦ s
    ];
  };
}

unfoldable pub patched : BatchPatch → KeyRow → KeyRow
patched p k = given set_active p.is_active (
    given set_rate p.rate_limit_per_min (
      given set_concurrent p.max_concurrent (
        given (λ q r. record r { daily_quota = q }) p.daily_quota
          (given (λ t r. record r { plan_type = t }) p.plan_type
            (given (λ n r. record r { name = n }) p.name k)))))

unfoldable pub changes : BatchPatch → Bool
changes p =
    is_some p.name
    || is_some p.plan_type
    || is_some p.daily_quota
    || is_some p.max_concurrent
    || is_some p.rate_limit_per_min
    || is_some p.is_active

-- the assignments of one round
unfoldable pub assigned : BatchKeys → KeyRow → KeyRow
unfolding cooled_off patched
assigned p k =
    let k1 = if p.reset_cooldown then cooled_off k else k in
    let k2 = patched p.patch k1 in if p.soft_delete && not p.purge then set_active false k2 else k2

-- `changed` at the end of a round
unfoldable pub is_changed : BatchKeys → Bool
unfolding changes
is_changed p = p.reset_cooldown || changes p.patch || (p.soft_delete && not p.purge)

-- what a round comes to: an error of the commit is an internal one
unfoldable pub item : ℕ → Option KeyRow → Result (Unit {0}) → Item
item id k (ok u) = fine id k
item id k (err f) = refused id Code.internal_error

-- one round of the loop of `batch_keys`
unfoldable pub batch_one : BatchKeys → ℕ → Db → Item × Db
unfolding key_row put_key note settle erase_key assigned is_changed item rollback
batch_one p id d = elim (key_row d id) [
  | none ↦ (refused id Code.not_found, rollback d)
  | some k ↦
      let k' = assigned p k in
      let d1 = put_key id (assigned p) d in
      let purged : Result (Unit {0}) × Db =
        settle (raise 500 Code.internal_error) tt
          (note "key.batch_purge" (key_resource k') (erase_key id d1)) in
      let written : Result (Unit {0}) × Db =
        settle (raise 500 Code.internal_error) tt (note "key.batch" (key_resource k') d1) in
      if p.purge
      then (item id none purged.0, purged.1)
      else if is_changed p
      then (item id (some k') written.0, written.1)
      else (fine id (some k'), d1)
]

-- the loop of `batch_keys`
unfoldable pub batch_rounds : BatchKeys → List ℕ → Db → List Item × Db
unfolding batch_one
batch_rounds p [] d = ([], d)
batch_rounds p (id ∷ ids) d =
    let first = batch_one p id d in
    let rest = batch_rounds p ids first.1 in (first.0 ∷ rest.0, rest.1)

-- the providers of the keys that are there
unfoldable pub providers : List ℕ → Db → List String
unfolding key_row
providers [] d = []
providers (id ∷ ids) d =
    let rest = providers ids d in
    elim (key_row d id) [ none ↦ rest | some k ↦ k.key.provider ∷ rest ]

-- more than one of them
unfoldable pub are_mixed : List String → Bool
are_mixed [] = false
are_mixed (p ∷ []) = false
are_mixed (p ∷ q ∷ ps) = let rest = are_mixed (q ∷ ps) in if str_eq p q then rest else true

-- `batch_keys`, up to its tests
unfoldable pub batch_keys : BatchKeys → Db → Result (List Item) × Db
unfolding batch_rounds providers are_mixed
batch_keys p d =
    let all = batch_rounds p p.ids d in
    let done : Result (List Item) × Db = (ok all.0, all.1) in
    elim p.test [
      | none ↦ done
      | some mode ↦
          if not (str_eq mode "scrape")
          then (raise 400 Code.validation_error, d)
          else if ltb 1 (length p.ids) && are_mixed (providers p.ids d)
          then (raise 400 Code.mixed_provider_batch, d)
          else done
    ]

-- `succeeded`
unfoldable pub succeeded : List Item → ℕ
succeeded [] = 0
succeeded (fine id k ∷ items) = succeeded items + 1
succeeded (refused id c ∷ items) = succeeded items

-- `deduplicate_client_ids`, behind the ids that are in the dictionary already
unfoldable pub dedup : List ℕ → List ℕ → List ℕ
dedup seen [] = []
dedup seen (i ∷ ids) =
    let rest = dedup seen ids in
    let more = dedup (i ∷ seen) ids in if elem i seen then rest else i ∷ more

unfoldable pub deduplicate_client_ids : List ℕ → List ℕ
unfolding dedup
deduplicate_client_ids ids = dedup [] ids

-- `BatchAction`
pub data BatchAction : Type 0 where
  enable disable delete : BatchAction

-- `apply_batch_action_to_client`
unfoldable pub apply_batch_action_to_client : BatchAction → ClientRow → ClientRow
apply_batch_action_to_client enable c = record c {
  client = record c.client { is_active = true };
  status = active;
}
apply_batch_action_to_client disable c = record c {
  client = record c.client { is_active = false };
  status = disabled;
}
apply_batch_action_to_client delete c = gone c

abbrev pub batch_action : BatchAction → String
batch_action enable = "client.batch.enable"
batch_action disable = "client.batch.disable"
batch_action delete = "client.batch.delete"

-- `BatchClientResponse`, with the ids of the failed items
pub record BatchClientResponse : Type 0 where
  pub success_count : ℕ
  pub failed_count : ℕ
  pub failed_items : List ℕ

-- the ids without a row, and with one
unfoldable pub missing : Db → List ℕ → List ℕ
unfolding client_row
missing d [] = []
missing d (i ∷ ids) =
    let rest = missing d ids in elim (client_row d i) [ none ↦ i ∷ rest | some c ↦ rest ]

unfoldable pub present : Db → List ℕ → List ℕ
unfolding client_row
present d [] = []
present d (i ∷ ids) =
    let rest = present d ids in elim (client_row d i) [ none ↦ rest | some c ↦ i ∷ rest ]

-- the loop over the clients that are there
unfoldable pub apply_all : BatchAction → List ℕ → Db → Db
unfolding note put_client apply_batch_action_to_client
apply_all action [] d = d
apply_all action (i ∷ ids) d = apply_all action ids (
    note (batch_action action) (Resource.client i)
      (put_client i (apply_batch_action_to_client action) d))

-- `batch_update_clients`
unfoldable pub batch_update_clients : BatchAction → List ℕ → Db → Result BatchClientResponse × Db
unfolding deduplicate_client_ids missing present apply_all settle
batch_update_clients action client_ids d =
    let ids = deduplicate_client_ids client_ids in
    let lost = missing d ids in
    let found = present d ids in
    settle (raise 503 Code.db_unavailable)
      (record { success_count = length found; failed_count = length lost; failed_items = lost })
      (apply_all action found d)
