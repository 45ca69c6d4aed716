-- ===== src/Admin/Import/Counts.antt =====
-- The counts in the answer of `import_keys_text` of app/api/control_plane.py.
use fcam_gateway.Prelude.{ℕ, suc, ◌+◌, Bool, false, not, List, [], ◌∷◌, ◌==◌, length, if◌then◌else◌}
use fcam_gateway.Prelude.Text.{strip}
use fcam_gateway.Admin.Import.{Imported}

-- a line that is neither blank nor a comment
is_entry : List ℕ → Bool
is_entry [] = false
is_entry (c ∷ cs) = not (c == b'#')

-- how many lines have an entry
pub entries : List (List ℕ) → ℕ
entries [] = 0
entries (raw ∷ raws) = let rest = entries raws in if is_entry (strip raw) then suc rest else rest

-- the entries that have been counted
abbrev counted : Imported → ℕ
counted c = c.created + c.updated + c.skipped + length c.failures
