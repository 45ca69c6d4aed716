-- ===== src/Bindings/Refines.antt =====
-- app/core/resource_binding.py: the table of bindings behaves as the map of Registry.
use fcam_gateway.Prelude.{
  ℕ, ◌≡◌, refl, ap, ◌∙◌, Option, none, some, List, [], ◌∷◌, arith, Bool-cases, Option-cases, inl,
  inr, ◌==◌, if◌then◌else◌,
}
use fcam_gateway.Prelude.Text.{strip}
use fcam_gateway.Bindings.{
  Place, Binding, Table, reach, is_at, find, set_expiry, remove, place_of, expiry, outlasts,
  bind_at, bind_resource, is_past, lookup_at, lookup_bound_key_id,
}
use fcam_gateway.Bindings.Rows.{at_expiry, is_at_sound, find-set_expiry, find-remove}
use fcam_gateway.Bindings.Registry.{
  Registry, later, bound, looked_up, Call, answers, named, registry_answers, bound_at, looked_up_at,
}

-- a table whose calls of the database all succeed
abbrev pub table : List Binding → Table
table bs = record { rows = bs; outcomes = [] }

-- such a table holds the map
abbrev pub Holds : Registry → Table → Type 0
Holds r t = (bs : List Binding) × (t ≡ table bs) × ((q : Place) → find q bs ≡ r q)

later-outlasts : (old new : Option ℕ) → later old new ≡ (if outlasts new old then new else old)
unfolding outlasts
later-outlasts none none = refl
later-outlasts (some o) none = refl
later-outlasts none (some n) = refl
later-outlasts (some o) (some n) = ground arith

-- a map that answers with what is there already is the same map
at_same :
    (r : Registry) (p q : Place) (o : Option Binding)
    → r p ≡ o
    → r q ≡ (if is_at q p then o else r q)
at_same r p q o h = elim (Bool-cases (is_at q p)) [
  | inl m ↦ rw m (ap r (is_at_sound q p m) ∙ h)
  | inr m ↦ rw m refl
]

prolonged :
    (r : Registry) (bs : List Binding) (q p : Place) (e : Option ℕ) (old : Binding)
    → ((q : Place) → find q bs ≡ r q)
    → r p ≡ some old
    → find q (set_expiry p e bs) ≡ (if is_at q p then some (at_expiry e old) else r q)
prolonged r bs q p e old h s = elim (Bool-cases (is_at q p)) [
  | inl m ↦
      let f : find q bs ≡ some old = h q ∙ (ap r (is_at_sound q p m) ∙ s) in
      find-set_expiry q p e bs ∙ rw (m, f) refl
  | inr m ↦ find-set_expiry q p e bs ∙ rw m (h q)
]

bind_at-Holds :
    (now : ℕ) (p : Place) (key : ℕ) (e : Option ℕ) (r : Registry) (bs : List Binding)
    → ((q : Place) → find q bs ≡ r q)
    → let b : Binding = record { place = p; api_key_id = key; created_at = now; expires_at = e } in
      Holds (bound b r) (bind_at now p key e (table bs))
unfolding bind_at reach find
bind_at-Holds now p key e r bs h = elim (Option-cases (r p)) [
  | inl n ↦ let f : find p bs ≡ none = h p ∙ n in (b ∷ bs, rw f refl, λ q. rw (n, h q) refl)
  | inr (old, s) ↦
      let f : find p bs ≡ some old = h p ∙ s in
      elim (Bool-cases (old.api_key_id == key)) [
        | inr d ↦ (bs, rw (f, d) refl, λ q. rw (s, d) (h q ∙ at_same r p q (some old) s))
        | inl d ↦ elim (Bool-cases (outlasts e old.expires_at)) [
          | inl l ↦ (
            set_expiry p e bs,
            rw (f, d, l) refl,
            λ q. rw (s, d, later-outlasts old.expires_at e, l) (prolonged r bs q p e old h s),
          )
          | inr l ↦ (
            bs,
            rw (f, d, l) refl,
            λ q. rw (s, d, later-outlasts old.expires_at e, l) (h q ∙ at_same r p q (some old) s),
          )
        ]
      ]
]
  where
    b : Binding
    b = record { place = p; api_key_id = key; created_at = now; expires_at = e }

lookup_at-Holds :
    (now : ℕ) (p : Place) (r : Registry) (bs : List Binding)
    → ((q : Place) → find q bs ≡ r q)
    → ((lookup_at now p (table bs)).0 ≡ (looked_up now p r).0)
      × Holds (looked_up now p r).1 (lookup_at now p (table bs)).1
unfolding lookup_at reach
lookup_at-Holds now p r bs h = elim (Option-cases (r p)) [
  | inl n ↦ let f : find p bs ≡ none = h p ∙ n in rw (f, looked_up, n) (refl, (bs, refl, h))
  | inr (b, s) ↦
      let f : find p bs ≡ some b = h p ∙ s in
      elim (Bool-cases (is_past now b.expires_at)) [
        | inr l ↦ rw (f, looked_up, s, l) (refl, (bs, refl, h))
        | inl l ↦
            rw (f, looked_up, s, l)
              (refl, (remove p bs, refl, λ q. find-remove q p bs ∙ rw (h q) refl))
      ]
]

bind_resource-Holds :
    (now client key : ℕ) (kind id : List ℕ) (ttl : Option ℕ) (r : Registry) (t : Table)
    → Holds r t
    → Holds
        (bound_at now key ttl (named client kind id) r)
        (bind_resource now client key kind id ttl t)
unfolding bind_resource
bind_resource-Holds now client key kind id ttl r t (bs, e, h) = rw e (go (strip id))
  where
    go :
        (rid : List ℕ)
        → Holds
            (bound_at now key ttl
              (elim rid as (λ x. Option Place) [
                | [] ↦ none
                | c ∷ cs ↦ some (place_of client kind (c ∷ cs))
              ])
              r)
            (elim rid [
              | [] ↦ table bs
              | c ∷ cs ↦ bind_at now (place_of client kind (c ∷ cs)) key (expiry now ttl) (table bs)
            ])
    go [] = (bs, refl, h)
    go (c ∷ cs) = bind_at-Holds now (place_of client kind (c ∷ cs)) key (expiry now ttl) r bs h

lookup-Holds :
    (now client : ℕ) (kind id : List ℕ) (r : Registry) (t : Table)
    → Holds r t
    → let a = looked_up_at now (named client kind id) r in
      ((lookup_bound_key_id now client kind id t).0 ≡ a.0)
      × Holds a.1 (lookup_bound_key_id now client kind id t).1
unfolding lookup_bound_key_id
lookup-Holds now client kind id r t (bs, e, h) = rw e (go (strip id))
  where
    go :
        (rid : List ℕ)
        → let a =
            looked_up_at now
              (elim rid as (λ x. Option Place) [
                | [] ↦ none
                | c ∷ cs ↦ some (place_of client kind (c ∷ cs))
              ])
              r in
          let b : Option ℕ × Table = elim rid [
            | [] ↦ (none, table bs)
            | c ∷ cs ↦ lookup_at now (place_of client kind (c ∷ cs)) (table bs)
          ] in
          (b.0 ≡ a.0) × Holds a.1 b.1
    go [] = (refl, (bs, refl, h))
    go (c ∷ cs) = lookup_at-Holds now (place_of client kind (c ∷ cs)) r bs h

-- Where the database's calls succeed: whatever calls of `bind_resource` and `lookup_bound_key_id`
-- are made, in whatever order and at whatever moments, the code on its table answers as a map
-- from places to bindings does, in which the first binding of a place wins, one with the same key
-- may prolong it, and a binding that is past is forgotten when it is looked up.
pub bindings_refine :
    (cs : List Call) (r : Registry) (t : Table) → Holds r t → answers cs t ≡ registry_answers cs r
unfolding answers registry_answers
bindings_refine [] r t h = refl
bindings_refine (Call.bind now client key kind id ttl ∷ cs) r t h =
    ap (λ x. none ∷ x)
      (bindings_refine cs _ _ (bind_resource-Holds now client key kind id ttl r t h))
bindings_refine (Call.lookup now client kind id ∷ cs) r t h =
    let l = lookup-Holds now client kind id r t h in
    let ih = bindings_refine cs _ _ l.1 in rw (l.0, ih) refl
