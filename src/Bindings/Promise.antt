-- ===== src/Bindings/Promise.antt =====
-- The promises of app/core/resource_binding.py on which the routes of the API rely.
use fcam_gateway.Prelude.{
  ℕ, ◌≡◌, refl, ap, ◌∙◌, Bool, true, false, not, Option, none, some, List, [], ◌∷◌, Bool-cases, inl,
  inr, ◌==◌, if◌then◌else◌, if-elim,
}
use fcam_gateway.Prelude.Text.{strip}
use fcam_gateway.Bindings.{
  Place, Binding, Table, reach, is_at, find, set_expiry, place_of, expiry, outlasts, bind_at,
  bind_resource, lookup_at, lookup_bound_key_id, is_past,
}
use fcam_gateway.Bindings.Rows.{at_expiry, is_at_sound, is_at_refl, find-set_expiry}
use fcam_gateway.Bindings.Refines.{table}

-- a place is bound to a key
pub record Owned (p : Place) (key : ℕ) (t : Table) : Type 0 where
  pub row : Binding
  pub found : find p t.rows ≡ some row
  pub owner : row.api_key_id ≡ key

reach-rows : (t : Table) → (reach t).1.rows ≡ t.rows
unfolding reach
reach-rows t = go t.outcomes
  where
    go :
        (o : List Bool)
        → (elim o as (λ x. Bool × Table) [
          | [] ↦ (true, t)
          | outcome ∷ rest ↦ (outcome, record t { outcomes = rest })
        ]).1.rows
          ≡ t.rows
    go [] = refl
    go (x ∷ xs) = refl

reach-Owned : (p : Place) (key : ℕ) (t : Table) → Owned p key t → Owned p key (reach t).1
reach-Owned p key t h = record { row = h.row; found = rw (reach-rows t) h.found; owner = h.owner }

set_expiry-Owned :
    (p q : Place) (key : ℕ) (e : Option ℕ) (t u : Table)
    → u.rows ≡ t.rows
    → Owned p key t
    → Owned p key (record u { rows = set_expiry q e t.rows })
set_expiry-Owned p q key e t u s h = elim (Bool-cases (is_at p q)) [
  | inl m ↦ record {
    row = at_expiry e h.row;
    found = find-set_expiry p q e t.rows ∙ rw (m, h.found) refl;
    owner = h.owner;
  }
  | inr m ↦ record {
    row = h.row;
    found = find-set_expiry p q e t.rows ∙ rw m h.found;
    owner = h.owner;
  }
]

bind_at-Owned :
    (now : ℕ) (p q : Place) (key other : ℕ) (e : Option ℕ) (t : Table)
    → Owned p key t
    → Owned p key (bind_at now q other e t)
unfolding bind_at find
bind_at-Owned now p q key other e t h =
    if-elim (Owned p key) (not (reach t).0) h1 (go (find q t1.rows) refl)
  where
    t1 : Table
    t1 = (reach t).1

    t2 : Table
    t2 = (reach t1).1

    h1 : Owned p key t1
    h1 = reach-Owned p key t h

    h2 : Owned p key t2
    h2 = reach-Owned p key t1 h1

    b : Binding
    b = record { place = q; api_key_id = other; created_at = now; expires_at = e }

    go :
        (o : Option Binding)
        → find q t1.rows ≡ o
        → Owned p key (elim o [
          | none ↦ record t1 { rows = b ∷ t1.rows }
          | some old ↦
              if not (reach t1).0
              then t2
              else if not (old.api_key_id == other)
              then t2
              else if outlasts e old.expires_at
              then (if (reach t2).0
                  then record (reach t2).1 { rows = set_expiry q e t2.rows }
                  else (reach t2).1)
              else t2
        ])
    go none f = elim (Bool-cases (is_at p q)) [
      | inl m ↦
          let c : find p t1.rows ≡ none = ap (λ x. find x t1.rows) (is_at_sound p q m) ∙ f in
          let d = h1.found in cc
      | inr m ↦ record { row = h1.row; found = rw m h1.found; owner = h1.owner }
    ]
    go (some old) f = if-elim (Owned p key) (not (reach t1).0) h2 (
        if-elim (Owned p key) (not (old.api_key_id == other)) h2 (
          if-elim (Owned p key) (outlasts e old.expires_at)
            (if-elim (Owned p key) (reach t2).0
              (set_expiry-Owned p q key e t2 (reach t2).1 (reach-rows t2) h2)
              (reach-Owned p key t2 h2))
            h2))

-- the arguments of a call of `bind_resource`
pub record Bind : Type 0 where
  pub now : ℕ
  pub client : ℕ
  pub key : ℕ
  pub kind : List ℕ
  pub id : List ℕ
  pub ttl : Option ℕ

-- calls in a row
unfoldable pub bind_all : List Bind → Table → Table
bind_all [] t = t
bind_all (b ∷ bs) t = bind_all bs (bind_resource b.now b.client b.key b.kind b.id b.ttl t)

bind_resource-Owned :
    (b : Bind) (p : Place) (key : ℕ) (t : Table)
    → Owned p key t
    → Owned p key (bind_resource b.now b.client b.key b.kind b.id b.ttl t)
unfolding bind_resource
bind_resource-Owned b p key t h = go (strip b.id)
  where
    go :
        (rid : List ℕ)
        → Owned p key (elim rid [
          | [] ↦ t
          | c ∷ cs ↦ bind_at b.now (place_of b.client b.kind (c ∷ cs)) b.key (expiry b.now b.ttl) t
        ])
    go [] = h
    go (c ∷ cs) =
        bind_at-Owned b.now p (place_of b.client b.kind (c ∷ cs)) key b.key (expiry b.now b.ttl) t h

-- Whatever calls of `bind_resource` follow, by whichever clients and with whichever keys, and
-- whatever calls of the database fail, a place that is bound to a key stays bound to that key.
pub bind_all-Owned :
    (bs : List Bind) (p : Place) (key : ℕ) (t : Table) → Owned p key t → Owned p key (bind_all bs t)
unfolding bind_all
bind_all-Owned [] p key t h = h
bind_all-Owned (b ∷ bs) p key t h = bind_all-Owned bs p key _ (bind_resource-Owned b p key t h)

-- Where the database's calls succeed: a resource of a client that is not bound yet, once bound to
-- a key, is looked up as bound to that key, by every spelling of the id that is the same but for
-- the spaces around it, until the binding expires.
pub bind-lookup :
    (now later client key : ℕ) (kind id id' : List ℕ) (ttl : Option ℕ) (bs : List Binding) (c : ℕ)
    (cs : List ℕ)
    → strip id ≡ c ∷ cs
    → strip id' ≡ c ∷ cs
    → find (place_of client kind (c ∷ cs)) bs ≡ none
    → is_past later (expiry now ttl) ≡ false
    → (lookup_bound_key_id later client kind id'
        (bind_resource now client key kind id ttl (table bs))).0
      ≡ some key
unfolding bind_resource lookup_bound_key_id bind_at lookup_at reach find
bind-lookup now later client key kind id id' ttl bs c cs e e' free live =
    let p = place_of client kind (c ∷ cs) in
    let m : is_at p p ≡ true = is_at_refl p in
    rw (bind_resource, e, free) (rw (lookup_bound_key_id, e', m, live) refl)
