-- ===== src/Admin/Kept.antt =====
-- What the steps of a request keep of the tables of app/db/models.py, the committed ones included.
pub mod Steps
pub mod Keys
pub mod Clients
pub mod Batches
pub mod Imports
use fcam_gateway.Prelude.{
  ◌≡◌, refl, Bool, true, false, not, Option, none, some, List, [], ◌∷◌, if-elim, Bool-cases, inl,
  inr, if◌then◌else◌,
}
use fcam_gateway.Models.{Result, ok, err}
use fcam_gateway.Admin.{
  Store, Db, Committed, done, integrity_error, failed, holds, rollback, commit,
}

-- of the tables as the request sees them, and as they were committed
abbrev pub Kept : (Store → Type 0) → Db → Type 0
Kept P d = P d.now × P d.saved

module _ (P : Store → Type 0) where
  pub rollback-Kept : (d : Db) → Kept P d → Kept P (rollback d)
  unfolding rollback
  rollback-Kept d h = (h.1, h.1)

  abbrev After : Committed × Db → Type 0
  After x = Kept P x.1

  pub commit-Kept : (d : Db) → Kept P d → Kept P (commit d).1
  unfolding commit rollback
  commit-Kept d h = if-elim After (not (holds d.now)) (h.1, h.1) (go d.outcomes)
    where
      go :
          (o : List Bool)
          → let x : Committed × Db = elim o [
            | [] ↦ (done, record d { saved = d.now })
            | outcome ∷ rest ↦
                if outcome
                then (done, record d { saved = d.now; outcomes = rest })
                else (failed, record (rollback d) { outcomes = rest })
          ] in
            After x
      go [] = (h.0, h.0)
      go (true ∷ rest) = (h.0, h.0)
      go (false ∷ rest) = (h.1, h.1)

-- committed tables satisfy the constraints
abbrev pub IsSound : Db → Type 0
IsSound d = holds d.saved ≡ true

abbrev Sound : Committed × Db → Type 0
Sound x = IsSound x.1

pub commit-IsSound : (d : Db) → IsSound d → IsSound (commit d).1
unfolding commit rollback
commit-IsSound d h = elim (Bool-cases (holds d.now)) [
  | inl e ↦ rw e (go d.outcomes e)
  | inr e ↦ rw e h
]
  where
    go :
        (o : List Bool)
        → holds d.now ≡ true
        → let x : Committed × Db = elim o [
          | [] ↦ (done, record d { saved = d.now })
          | outcome ∷ rest ↦
              if outcome
              then (done, record d { saved = d.now; outcomes = rest })
              else (failed, record (rollback d) { outcomes = rest })
        ] in
          Sound x
    go [] e = e
    go (true ∷ rest) e = e
    go (false ∷ rest) e = h
