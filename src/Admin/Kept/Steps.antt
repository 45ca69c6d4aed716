-- ===== src/Admin/Kept/Steps.antt =====
-- The steps that the console's requests in app/api/control_plane.py share.
use fcam_gateway.Prelude.{ℕ, Option, none, some, all_of-update_by, String}
use fcam_gateway.Models.{Result}
use fcam_gateway.Admin.{
  KeyRow, ClientRow, Resource, Db, rollback, commit, note, put_key, put_client, has_id, is_client,
}
use fcam_gateway.Admin.Kept.{rollback-Kept, commit-Kept, commit-IsSound}
use fcam_gateway.Admin.Rows.{key_ok, client_ok, Consistent, IsKept, KeepsKey, KeepsClient}

pub rollback-IsKept : (d : Db) → IsKept d → IsKept (rollback d)
unfolding rollback
rollback-IsKept d h = (rollback-Kept Consistent d h.0, h.1)

pub commit-IsKept : (d : Db) → IsKept d → IsKept (commit d).1
commit-IsKept d h = (commit-Kept Consistent d h.0, commit-IsSound d h.1)

-- an answer that leaves the tables well
abbrev pub Ends {ℓ} : {A : Type ℓ} → A × Db → Type 0
Ends x = IsKept x.1

-- the last commit of a request, with what is noted before it
pub noted-IsKept :
    (action : String) (resource : Resource) (d : Db)
    → IsKept d
    → IsKept (commit (note action resource d)).1
unfolding note
noted-IsKept action resource d h = commit-IsKept _ h

pub put_key-IsKept :
    (id : ℕ) (f : KeyRow → KeyRow) (d : Db) → KeepsKey f → IsKept d → IsKept (put_key id f d)
unfolding put_key
put_key-IsKept id f d keeps h =
    (((all_of-update_by key_ok (has_id id) f d.now.keys keeps h.0.0.0, h.0.0.1), h.0.1), h.1)

pub put_client-IsKept :
    (id : ℕ) (f : ClientRow → ClientRow) (d : Db)
    → KeepsClient f
    → IsKept d
    → IsKept (put_client id f d)
unfolding put_client
put_client-IsKept id f d keeps h = (
  ((h.0.0.0, all_of-update_by client_ok (is_client id) f d.now.clients keeps h.0.0.1), h.0.1),
  h.1,
)

-- a request on a row that is there
pub found-Ends {ℓ κ} :
    {A : Type ℓ} {R : Type κ} (o : Option R) (missing : Result A) (f : R → Result A × Db) (d : Db)
    → IsKept d
    → ((r : R) → Ends (f r))
    → Ends (elim o as (λ x. Result A × Db) [ none ↦ (missing, d) | some r ↦ f r ])
found-Ends none missing f d h each = h
found-Ends (some r) missing f d h each = each r
