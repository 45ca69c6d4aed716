-- ===== src/Admin/Whole.antt =====
-- `batch_update_clients` of app/api/control_plane.py with `deduplicate_client_ids` of
-- app/core/batch_clients.py: every client once, and every client counted.
use fcam_gateway.Prelude.{
  ℕ, ◌+◌, ◌≡◌, refl, sym, ◌∙◌, ap, true, ◌&&◌, not, Option, none, some, List, [], ◌∷◌, ◌==◌, elem,
  length, arith, Bool-cases, inl, inr, if◌then◌else◌, distinct, find_by, update_by,
}
use fcam_gateway.Models.{ok, failure, Code}
use fcam_gateway.Admin.{ClientRow, Resource, Store, Db, is_client, client_row, put_client, note}
use fcam_gateway.Admin.Settled.{settled}
use fcam_gateway.Admin.Batch.{
  BatchAction, enable, disable, delete, apply_batch_action_to_client, batch_action,
  BatchClientResponse, dedup, deduplicate_client_ids, missing, present, apply_all,
  batch_update_clients,
}

dedup-elem :
    (x : ℕ) (seen ids : List ℕ) → elem x (dedup seen ids) ≡ (elem x ids && not (elem x seen))
unfolding dedup
dedup-elem x seen [] = refl
dedup-elem x seen (i ∷ ids) = ground (arith, dedup-elem x seen ids, dedup-elem x (i ∷ seen) ids)

dedup-distinct : (seen ids : List ℕ) → distinct (dedup seen ids) ≡ true
unfolding dedup distinct
dedup-distinct seen [] = refl
dedup-distinct seen (i ∷ ids) =
    ground
      (arith, dedup-distinct seen ids, dedup-distinct (i ∷ seen) ids, dedup-elem i (i ∷ seen) ids)

missing-present :
    (d : Db) (ids : List ℕ) → length (present d ids) + length (missing d ids) ≡ length ids
unfolding present missing
missing-present d [] = refl
missing-present d (i ∷ ids) = ground (arith, missing-present d ids)

-- each id of the request is worked on once: the counts of the answer come to the ids without
-- repetitions
pub record Counted (ids : List ℕ) (r : BatchClientResponse) : Type 0 where
  pub total : r.success_count + r.failed_count ≡ length (deduplicate_client_ids ids)
  pub failed : r.failed_count ≡ length r.failed_items
  pub once : distinct (deduplicate_client_ids ids) ≡ true
  pub all : (x : ℕ) → elem x (deduplicate_client_ids ids) ≡ elem x ids

apply_twice :
    (a : BatchAction) (c : ClientRow)
    → apply_batch_action_to_client a (apply_batch_action_to_client a c)
      ≡ apply_batch_action_to_client a c
unfolding apply_batch_action_to_client
apply_twice enable c = refl
apply_twice disable c = refl
apply_twice delete c = refl

-- the row of a client after the action on these ids
abbrev applied : BatchAction → List ℕ → ℕ → ClientRow → ClientRow
applied a ids i c = if elem i ids then apply_batch_action_to_client a c else c

find-update :
    (f : ClientRow → ClientRow) (i j : ℕ) (c : ClientRow) (cs : List ClientRow)
    → ((r : ClientRow) → (f r).client.id ≡ r.client.id)
    → find_by (is_client i) cs ≡ some c
    → find_by (is_client i) (update_by (is_client j) f cs) ≡ some (if i == j then f c else c)
unfolding find_by update_by
find-update f i j c [] keeps h = cc
find-update f i j c (x ∷ cs) keeps h = elim (Bool-cases (is_client i x)) [
  | inl e ↦
      (let h' : some x ≡ some c = rw e at h in
        let s : x ≡ c = cc in rw (sym s) (ground (arith, e, keeps x)))
  | inr e ↦ ground (arith, e, keeps x, find-update f i j c cs keeps (rw e at h))
]

apply-id :
    (a : BatchAction) (c : ClientRow) → (apply_batch_action_to_client a c).client.id ≡ c.client.id
unfolding apply_batch_action_to_client
apply-id enable c = refl
apply-id disable c = refl
apply-id delete c = refl

applied-again :
    (a : BatchAction) (ids : List ℕ) (i j : ℕ) (c : ClientRow)
    → applied a ids i (if i == j then apply_batch_action_to_client a c else c)
      ≡ applied a (j ∷ ids) i c
applied-again a ids i j c = elim (Bool-cases (i == j)) [
  | inr e ↦ rw e refl
  | inl e ↦
      rw e (elim (Bool-cases (elem i ids)) [ inl m ↦ rw m (apply_twice a c) | inr m ↦ rw m refl ])
]

apply_all-row :
    (a : BatchAction) (ids : List ℕ) (d : Db) (i : ℕ) (c : ClientRow)
    → client_row d i ≡ some c
    → client_row (apply_all a ids d) i ≡ some (applied a ids i c)
unfolding apply_all note put_client client_row
apply_all-row a [] d i c h = h
apply_all-row a (j ∷ ids) d i c h =
    apply_all-row a ids
      (note (batch_action a) (Resource.client j) (put_client j (apply_batch_action_to_client a) d))
      i (if i == j then apply_batch_action_to_client a c else c)
      (find-update (apply_batch_action_to_client a) i j c d.now.clients (apply-id a) h)
    ∙ ap some (applied-again a ids i j c)

present-elem :
    (d : Db) (ids : List ℕ) (i : ℕ) (c : ClientRow)
    → client_row d i ≡ some c
    → elem i (present d ids) ≡ elem i ids
unfolding present
present-elem d [] i c h = refl
present-elem d (j ∷ ids) i c h = go (client_row d j) refl (present-elem d ids i c h)
  where
    go :
        (o : Option ClientRow)
        → client_row d j ≡ o
        → elem i (present d ids) ≡ elem i ids
        → elem i (present d (j ∷ ids)) ≡ elem i (j ∷ ids)
    go (some r) e rest = rw (present, e) (ground (arith, rest))
    go none e rest = elim (Bool-cases (i == j)) [
      | inl same ↦ (let s : i ≡ j = ground (arith, same) in cc (ap (client_row d) s, h, e))
      | inr other ↦ rw (present, e, other) rest
    ]

-- Where a batch of clients is committed, its answer counts each client of the request once, and every
-- row of the request has what the action makes of it, and every other row is left alone.
pub batch_applied :
    (a : BatchAction) (ids : List ℕ) (d d' : Db) (r : BatchClientResponse)
    → batch_update_clients a ids d ≡ (ok r, d')
    → Counted ids r
      × ((i : ℕ) (c : ClientRow)
          → client_row d i ≡ some c
          → find_by (is_client i) d'.saved.clients
            ≡ some (if elem i ids then apply_batch_action_to_client a c else c))
unfolding batch_update_clients deduplicate_client_ids client_row
batch_applied a ids d d' r h =
    let once = deduplicate_client_ids ids in
    let lost = missing d once in
    let found = present d once in
    let s =
      settled (failure 503 Code.db_unavailable)
        (record { success_count = length found; failed_count = length lost; failed_items = lost }) r
        (apply_all a found d) d' h in
    (
      rw (sym s.answer) (record {
        total = missing-present d once;
        failed = refl;
        once = dedup-distinct [] ids;
        all = λ x. ground (arith, dedup-elem x [] ids);
      }),
      λ i c e.
          ap (λ (x : Store). find_by (is_client i) x.clients) s.written
          ∙ apply_all-row a found d i c e
          ∙ ap (λ b. some (if b then apply_batch_action_to_client a c else c))
              (present-elem d once i c e ∙ ground (arith, dedup-elem i [] ids)),
    )
