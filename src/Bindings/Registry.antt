-- ===== src/Bindings/Registry.antt =====
-- What app/core/resource_binding.py promises: a map from places to bindings, and calls in a row.
use fcam_gateway.Prelude.{ℕ, max, Bool, not, Option, none, some, List, [], ◌∷◌, ◌==◌, if◌then◌else◌}
use fcam_gateway.Prelude.Text.{strip}
use fcam_gateway.Bindings.{
  Place, Binding, Table, is_at, place_of, expiry, bind_resource, is_past, lookup_bound_key_id,
}

-- The abstract view: a map from places to bindings.
abbrev pub Registry : Type 0
Registry = Place → Option Binding

-- the later of two expiries, where the second is a wish
abbrev pub later : Option ℕ → Option ℕ → Option ℕ
later old none = old
later none (some new) = some new
later (some old) (some new) = some (max old new)

-- the first binding wins, and one with the same key may prolong it
abbrev pub joined : Binding → Option Binding → Binding
joined b none = b
joined b (some old) =
    if old.api_key_id == b.api_key_id
    then record old { expires_at = later old.expires_at b.expires_at }
    else old

abbrev pub bound : Binding → Registry → Registry
bound b r q = if is_at q b.place then some (joined b (r b.place)) else r q

abbrev pub is_live : ℕ → Binding → Bool
is_live now b = not (is_past now b.expires_at)

-- the key of a place, and the map without the place where its binding is past
abbrev pub looked_up : ℕ → Place → Registry → Option ℕ × Registry
looked_up now p r = elim (r p) [
  | none ↦ (none, r)
  | some b ↦
      if is_live now b then (some b.api_key_id, r) else (none, λ q. if is_at q p then none else r q)
]

-- a call of `bind_resource` or of `lookup_bound_key_id`, with its moment and its arguments
pub data Call : Type 0 where
  bind : (now client key : ℕ) (kind id : List ℕ) (ttl : Option ℕ) → Call
  lookup : (now client : ℕ) (kind id : List ℕ) → Call

-- what the code answers to calls in a row
unfoldable pub answers : List Call → Table → List (Option ℕ)
answers [] t = []
answers (Call.bind now client key kind id ttl ∷ cs) t =
    none ∷ answers cs (bind_resource now client key kind id ttl t)
answers (Call.lookup now client kind id ∷ cs) t =
    let r = lookup_bound_key_id now client kind id t in r.0 ∷ answers cs r.1

-- an id that is blank names nothing
abbrev pub named : ℕ → List ℕ → List ℕ → Option Place
named client kind id = elim (strip id) [ [] ↦ none | c ∷ cs ↦ some (place_of client kind (c ∷ cs)) ]

abbrev pub bound_at : ℕ → ℕ → Option ℕ → Option Place → Registry → Registry
bound_at now key ttl none r = r
bound_at now key ttl (some p) r =
    let b : Binding = record {
      place = p;
      api_key_id = key;
      created_at = now;
      expires_at = expiry now ttl;
    } in
    bound b r

abbrev pub looked_up_at : ℕ → Option Place → Registry → Option ℕ × Registry
looked_up_at now none r = (none, r)
looked_up_at now (some p) r = looked_up now p r

-- what the map answers
unfoldable pub registry_answers : List Call → Registry → List (Option ℕ)
registry_answers [] r = []
registry_answers (Call.bind now client key kind id ttl ∷ cs) r =
    none ∷ registry_answers cs (bound_at now key ttl (named client kind id) r)
registry_answers (Call.lookup now client kind id ∷ cs) r =
    let a = looked_up_at now (named client kind id) r in a.0 ∷ registry_answers cs a.1
