-- ===== src/Admin/Unbound.antt =====
-- The deletion of a key that no resource is bound to, in app/api/control_plane.py, and
-- the constraints of the database that it meets.
use fcam_gateway.Prelude.{ℕ, ◌≡◌, false, List, ◌==◌, map, without, find_by}
use fcam_gateway.Admin.{KeyRow, LogRow, Store, has_id}
use fcam_gateway.Admin.Purged.{Untraced}

module _ (id : ℕ) (keys : List KeyRow) where
  abbrev ids : List ℕ
  ids = map (λ (k : KeyRow). k.key.id) keys

  abbrev left : List ℕ
  left = map (λ (k : KeyRow). k.key.id) (without (has_id id) keys)

-- tables from which a key has been purged, and nothing else
pub record IsPurged (id : ℕ) (s s' : Store) : Type 0 where
  pub untraced : Untraced id s'
  pub logs : map (λ (l : LogRow). l.client_id) s'.logs ≡ map (λ (l : LogRow). l.client_id) s.logs
  pub clients : s'.clients ≡ s.clients
  pub bindings : s'.bindings ≡ s.bindings
  pub others : (j : ℕ) → (j == id) ≡ false → find_by (has_id j) s'.keys ≡ find_by (has_id j) s.keys
