-- ===== src/Admin/Settled.antt =====
-- What a commit that succeeds leaves, in the routes of app/api/control_plane.py.
use fcam_gateway.Prelude.{
  ◌≡◌, sym, ap, Bool, true, false, none, List, [], ◌∷◌, Bool-cases, inl, inr, if◌then◌else◌,
}
use fcam_gateway.Models.{Result, ok, err, Failure, Code}
use fcam_gateway.Admin.{
  Db, Committed, done, integrity_error, failed, holds, rollback, commit, settle,
}

-- a request has been committed: its answer, and the tables
pub record Settled {ℓ} {A : Type ℓ} (a x : A) (d d' : Db) : Type ℓ where
  pub answer : a ≡ x
  pub written : d'.saved ≡ d.now
  pub sound : holds d.now ≡ true

module _ {ℓ} {A : Type ℓ} (f : Failure) (a x : A) (d d' : Db) where
  verdict : Committed × Db → Result A × Db
  verdict c = (
    elim c.0 [
      | done ↦ ok a
      | integrity_error ↦ err f
      | failed ↦ err (record { status_code = 503; code = Code.db_unavailable; retry_after = none })
    ],
    c.1,
  )

  pub settled : settle (err f) a d ≡ (ok x, d') → Settled a x d d'
  unfolding settle commit verdict
  settled h = elim (Bool-cases (holds d.now)) [
    | inr e ↦ cc (rw e at h)
    | inl e ↦ go d.outcomes e (rw e at h)
  ]
    where
      go :
          (o : List Bool)
          → holds d.now ≡ true
          → verdict (elim o as (λ y. Committed × Db) [
            | [] ↦ (done, record d { saved = d.now })
            | outcome ∷ rest ↦
                if outcome
                then (done, record d { saved = d.now; outcomes = rest })
                else (failed, record (rollback d) { outcomes = rest })
          ])
            ≡ (ok x, d')
          → Settled a x d d'
      go [] e h = record {
        answer = cc;
        written = ap (λ (y : Result A × Db). y.1.saved) (sym h);
        sound = e;
      }
      go (true ∷ rest) e h = record {
        answer = cc;
        written = ap (λ (y : Result A × Db). y.1.saved) (sym h);
        sound = e;
      }
      go (false ∷ rest) e h = cc
