-- ===== src/Bindings.antt =====
-- app/core/resource_binding.py: which upstream key a client's resource belongs to. The unique
-- constraint of app/db/models.py makes a second row of a place an `IntegrityError`. A moment is a
-- number of microseconds; a driver's moment without a zone counts as UTC.
pub mod Rows
pub mod Registry
pub mod Refines
pub mod Promise
use fcam_gateway.Prelude.{
  ℕ, ◌+◌, ◌*◌, Bool, true, false, ◌&&◌, not, Option, none, some, List, [], ◌∷◌, ◌==◌, ltb,
  if◌then◌else◌, take,
}
use fcam_gateway.Prelude.Text.{same, strip}

-- the columns of the unique constraint
pub record Place : Type 0 where
  pub client_id : ℕ
  pub resource_type : List ℕ
  pub resource_id : List ℕ

-- `UpstreamResourceBinding`
pub record Binding : Type 0 where
  pub place : Place
  pub api_key_id : ℕ
  pub created_at : ℕ
  pub expires_at : Option ℕ

-- the table, and the outcomes of the database's calls to come (an empty list: all succeed)
pub record Table : Type 0 where
  pub rows : List Binding
  pub outcomes : List Bool

-- a call of the database
unfoldable pub reach : Table → Bool × Table
reach t = elim t.outcomes [
  | [] ↦ (true, t)
  | outcome ∷ rest ↦ (outcome, record t { outcomes = rest })
]

abbrev pub is_at : Place → Place → Bool
is_at p q =
    p.client_id == q.client_id
    && (same p.resource_type q.resource_type && same p.resource_id q.resource_id)

-- the query of the place, `one_or_none`
unfoldable pub find : Place → List Binding → Option Binding
find p [] = none
find p (b ∷ bs) = let rest = find p bs in if is_at p b.place then some b else rest

-- `existing.expires_at = new_expires_at`
unfoldable pub set_expiry : Place → Option ℕ → List Binding → List Binding
set_expiry p e [] = []
set_expiry p e (b ∷ bs) =
    (if is_at p b.place then record b { expires_at = e } else b) ∷ set_expiry p e bs

-- `db.delete(record)`
unfoldable pub remove : Place → List Binding → List Binding
remove p [] = []
remove p (b ∷ bs) = let rest = remove p bs in if is_at p b.place then rest else b ∷ rest

-- the place of a resource, its columns cut to their sizes
unfoldable pub place_of : ℕ → List ℕ → List ℕ → Place
place_of client kind rid = record {
  client_id = client;
  resource_type = take 32 kind;
  resource_id = take 128 rid;
}

-- `expires_at` of a new binding
unfoldable pub expiry : ℕ → Option ℕ → Option ℕ
expiry now none = none
expiry now (some ttl) = if ttl == 0 then none else some (now + ttl * 1000000)

-- whether the new expiry replaces the existing one
unfoldable pub outlasts : Option ℕ → Option ℕ → Bool
outlasts none old = false
outlasts (some new) none = true
outlasts (some new) (some old) = ltb old new

-- `bind_resource` behind the test of the id
unfoldable pub bind_at : ℕ → Place → ℕ → Option ℕ → Table → Table
unfolding reach find set_expiry outlasts
bind_at now p key expires t =
    let added = reach t in
    let t1 = added.1 in
    let b : Binding = record {
      place = p;
      api_key_id = key;
      created_at = now;
      expires_at = expires;
    } in
    let asked = reach t1 in
    let t2 = asked.1 in
    let saved = reach t2 in
    let extended : Table =
      if saved.0 then record saved.1 { rows = set_expiry p expires t2.rows } else saved.1 in
    if not added.0 then t1 else elim (find p t1.rows) [
      | none ↦ record t1 { rows = b ∷ t1.rows }
      | some old ↦
          if not asked.0
          then t2
          else if not (old.api_key_id == key)
          then t2
          else if outlasts expires old.expires_at
          then extended
          else t2
    ]

-- `bind_resource`
unfoldable pub bind_resource : ℕ → ℕ → ℕ → List ℕ → List ℕ → Option ℕ → Table → Table
unfolding place_of expiry bind_at
bind_resource now client key kind id ttl t = elim (strip id) [
  | [] ↦ t
  | c ∷ cs ↦ bind_at now (place_of client kind (c ∷ cs)) key (expiry now ttl) t
]

abbrev pub is_past : ℕ → Option ℕ → Bool
is_past now none = false
is_past now (some t) = ltb t now

-- `lookup_bound_key_id` behind the test of the id; an expired row is deleted
unfoldable pub lookup_at : ℕ → Place → Table → Option ℕ × Table
unfolding reach find remove
lookup_at now p t =
    let asked = reach t in
    let t1 = asked.1 in
    let deleted = reach t1 in
    let gone : Table =
      if deleted.0 then record deleted.1 { rows = remove p t1.rows } else deleted.1 in
    if not asked.0 then (none, t1) else elim (find p t1.rows) [
      | none ↦ (none, t1)
      | some b ↦ if is_past now b.expires_at then (none, gone) else (some b.api_key_id, t1)
    ]

-- `lookup_bound_key_id`
unfoldable pub lookup_bound_key_id : ℕ → ℕ → List ℕ → List ℕ → Table → Option ℕ × Table
unfolding place_of lookup_at
lookup_bound_key_id now client kind id t = elim (strip id) [
  | [] ↦ (none, t)
  | c ∷ cs ↦ lookup_at now (place_of client kind (c ∷ cs)) t
]
