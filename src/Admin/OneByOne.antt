-- ===== src/Admin/OneByOne.antt =====
-- `batch_keys` of app/api/control_plane.py and the routes for one key, compared.
use fcam_gateway.Prelude.{
  ℕ, ◌≡◌, refl, sym, ◌∙◌, ap, Bool, true, false, not, Option, none, some, List, [], ◌∷◌,
  if◌then◌else◌,
}
use fcam_gateway.Admin.{
  KeyRow, Store, Db, Committed, done, integrity_error, failed, holds, is_unique, is_referred,
  rollback, commit, note, key_row, put_key, settle,
}
use fcam_gateway.Admin.Keys.{set_active, delete_key}
use fcam_gateway.Admin.Batch.{BatchKeys, assigned, patched, batch_one, batch_rounds, batch_keys}

-- a batch that deletes keys softly, and does nothing else
abbrev pub soft_batch : List ℕ → BatchKeys
soft_batch ids = record {
  ids = ids;
  patch = record {
    name = none;
    plan_type = none;
    daily_quota = none;
    max_concurrent = none;
    rate_limit_per_min = none;
    is_active = none;
  };
  reset_cooldown = false;
  soft_delete = true;
  purge = false;
  test = none;
}

-- a request of `delete_key` for each id, in a session of its own
pub delete_each : List ℕ → Db → Db
delete_each [] d = d
delete_each (id ∷ ids) d = delete_each ids (rollback (delete_key id d).1)

-- everything but the audit log
abbrev plain : Store → Store
plain s = record s { audit = [] }

abbrev pub bare : Db → Db
bare d = record d { now = plain d.now; saved = plain d.saved }

-- a commit, by the constraints and the outcomes to come
after : Bool → List Bool → Db → Committed × Db
after false os d = (integrity_error, rollback d)
after true [] d = (done, record d { saved = d.now })
after true (true ∷ rest) d = (done, record d { saved = d.now; outcomes = rest })
after true (false ∷ rest) d = (failed, record (rollback d) { outcomes = rest })

commit-after : (d : Db) → commit d ≡ after (holds d.now) d.outcomes d
unfolding commit after
commit-after d = go (holds d.now) d.outcomes
  where
    go :
        (b : Bool) (os : List Bool)
        → (if not b then (integrity_error, rollback d) else elim os as (λ x. Committed × Db) [
          | [] ↦ (done, record d { saved = d.now })
          | outcome ∷ rest ↦
              if outcome
              then (done, record d { saved = d.now; outcomes = rest })
              else (failed, record (rollback d) { outcomes = rest })
        ])
          ≡ after b os d
    go false os = refl
    go true [] = refl
    go true (true ∷ rest) = refl
    go true (false ∷ rest) = refl

after-bare : (b : Bool) (os : List Bool) (d : Db) → bare (after b os d).1 ≡ (after b os (bare d)).1
unfolding after rollback
after-bare false os d = refl
after-bare true [] d = refl
after-bare true (true ∷ rest) d = refl
after-bare true (false ∷ rest) d = refl

after-rollback : (b : Bool) (os : List Bool) (d : Db) → rollback (after b os d).1 ≡ (after b os d).1
unfolding after rollback
after-rollback false os d = refl
after-rollback true [] d = refl
after-rollback true (true ∷ rest) d = refl
after-rollback true (false ∷ rest) d = refl

holds-bare : (d : Db) → holds (bare d).now ≡ holds d.now
unfolding holds is_unique is_referred
holds-bare d = refl

commit-bare : (d : Db) → bare (commit d).1 ≡ (commit (bare d)).1
commit-bare d =
    ap (λ (x : Committed × Db). bare x.1) (commit-after d)
    ∙ after-bare (holds d.now) d.outcomes d
    ∙ sym (
        ap (λ (x : Committed × Db). x.1) (commit-after (bare d))
        ∙ ap (λ b. (after b d.outcomes (bare d)).1) (holds-bare d))

commit-rollback : (d : Db) → rollback (commit d).1 ≡ (commit d).1
commit-rollback d =
    ap (λ (x : Committed × Db). rollback x.1) (commit-after d)
    ∙ after-rollback (holds d.now) d.outcomes d
    ∙ sym (ap (λ (x : Committed × Db). x.1) (commit-after d))

-- the deletion of one key, but for the audit log
soft : ℕ → Db → Db
soft id d = elim (key_row d id) [
  | none ↦ rollback d
  | some k ↦ (commit (put_key id (set_active false) d)).1
]

batch_one-soft :
    (ids : List ℕ) (id : ℕ) (d : Db) → bare (batch_one (soft_batch ids) id d).1 ≡ soft id (bare d)
unfolding batch_one soft settle note put_key rollback assigned patched key_row
batch_one-soft ids id d = go (key_row d id) refl
  where
    go :
        (o : Option KeyRow)
        → key_row d id ≡ o
        → bare (batch_one (soft_batch ids) id d).1 ≡ soft id (bare d)
    go none e = rw (batch_one, soft, e) refl
    go (some k) e = rw (batch_one, soft, e) (commit-bare _)

delete_key-soft : (id : ℕ) (d : Db) → bare (rollback (delete_key id d).1) ≡ soft id (bare d)
unfolding delete_key soft settle note put_key rollback key_row
delete_key-soft id d = go (key_row d id) refl
  where
    go :
        (o : Option KeyRow)
        → key_row d id ≡ o
        → bare (rollback (delete_key id d).1) ≡ soft id (bare d)
    go none e = rw (delete_key, soft, e) refl
    go (some k) e = rw (delete_key, soft, e) (ap bare (commit-rollback _) ∙ commit-bare _)

softs : List ℕ → Db → Db
softs [] x = x
softs (id ∷ ids) x = softs ids (soft id x)

rounds-softs :
    (all ids : List ℕ) (d : Db) → bare (batch_rounds (soft_batch all) ids d).1 ≡ softs ids (bare d)
unfolding batch_rounds softs
rounds-softs all [] d = refl
rounds-softs all (id ∷ ids) d =
    rounds-softs all ids (batch_one (soft_batch all) id d).1
    ∙ ap (softs ids) (batch_one-soft all id d)

each-softs : (ids : List ℕ) (d : Db) → bare (delete_each ids d) ≡ softs ids (bare d)
unfolding delete_each softs
each-softs [] d = refl
each-softs (id ∷ ids) d =
    each-softs ids (rollback (delete_key id d).1) ∙ ap (softs ids) (delete_key-soft id d)

-- A batch that deletes keys softly leaves the tables as one deletion after the other does, each in a
-- session of its own, whichever keys are missing and whichever commits fail; only the entries of the
-- audit log differ.
pub soft_batch-delete_each :
    (ids : List ℕ) (d : Db) → bare (batch_keys (soft_batch ids) d).1 ≡ bare (delete_each ids d)
unfolding batch_keys
soft_batch-delete_each ids d = rounds-softs ids ids d ∙ sym (each-softs ids d)
