-- ===== src/Forwarder/Requests.antt =====
-- `Forwarder.forward` of app/core/forwarder.py: every request that it makes, and its leases.
use fcam_gateway.Prelude.{
  ℕ, zero, suc, ◌-◌, ◌≤◌, ◌<◌, ◌≡◌, refl, ◌∙◌, ap, subst, false, Option, List, [], ◌∷◌, arith,
  Bool-cases, inl, inr, ltb, ◌==◌, elem, length, All,
}
use fcam_gateway.Models.{Result}
use fcam_gateway.Concurrency.{current}
use fcam_gateway.Forwarder.{KeyPoolApi, Env}
use fcam_gateway.Forwarder.Marks.{W}
use fcam_gateway.Forwarder.Shared.{Request, ForwardResult}
use fcam_gateway.Forwarder.Rotation.{Locals, Turn, answered, again, turn, turns}
use fcam_gateway.Forwarder.Ends.{Ended, Switched, TurnServed}
use fcam_gateway.Forwarder.Served.{turn-Served}

-- the requests, oldest first, on top of the record
abbrev pub on_top : List ℕ → List ℕ → List ℕ
on_top [] sent = sent
on_top (id ∷ ids) sent = on_top ids (id ∷ sent)

abbrev pub IsDistinct : List ℕ → Type 0
IsDistinct [] = Unit
IsDistinct (id ∷ ids) = (elem id ids ≡ false) × IsDistinct ids

abbrev pub IsUntried : List ℕ → ℕ → Type 0
IsUntried tried id = elem id tried ≡ false

elem_head :
    (id m : ℕ) (ids : List ℕ)
    → elem id (m ∷ ids) ≡ false
    → ((id == m) ≡ false) × (elem id ids ≡ false)
elem_head id m ids h = elim (Bool-cases (id == m)) [
  | inl e ↦ absurd (ground (arith, e, h))
  | inr e ↦ (e, ground (arith, e, h))
]

IsUntried-tail :
    (id : ℕ) (tried ids : List ℕ) → All (IsUntried (id ∷ tried)) ids → All (IsUntried tried) ids
IsUntried-tail id tried [] a = a
IsUntried-tail id tried (x ∷ xs) a = ((elem_head x id tried a.0).1, IsUntried-tail id tried xs a.1)

IsUntried-head :
    (id : ℕ) (tried ids : List ℕ) → All (IsUntried (id ∷ tried)) ids → elem id ids ≡ false
IsUntried-head id tried [] a = refl
IsUntried-head id tried (x ∷ xs) a =
    ground (arith, IsUntried-head id tried xs a.1, (elem_head x id tried a.0).0)

module _ (K : KeyPoolApi) (env : Env) where
  -- what the loop does: its leases are back, and it made at most `n` requests, each with a key of
  -- its own that had not been tried
  pub record Rotated (n : ℕ) (tried : List ℕ) (w w' : W K env) : Type 0 where
    pub counts : (k : ℕ) → current w'.leases k ≡ current w.leases k
    pub made : List ℕ
    pub distinct : IsDistinct made
    pub untried : All (IsUntried tried) made
    pub bound : length made ≤ n
    pub requests : w'.sent ≡ on_top made w.sent

  none_made :
      {n : ℕ} {tried : List ℕ} {w w' : W K env}
      → ((k : ℕ) → current w'.leases k ≡ current w.leases k)
      → w'.sent ≡ w.sent
      → Rotated n tried w w'
  none_made c e = record {
    counts = c;
    made = [];
    distinct = tt;
    untried = tt;
    bound = omega arith;
    requests = e;
  }

  ended :
      {n : ℕ} {tried : List ℕ} {w w' : W K env}
      → 0 < n
      → Ended K env tried w w'
      → Rotated n tried w w'
  ended h s = elim s.requests [
    | inl e ↦ none_made s.counts e
    | inr e ↦ record {
      counts = s.counts;
      made = s.key ∷ [];
      distinct = (refl, tt);
      untried = (e.0, tt);
      bound = omega (arith, h);
      requests = e.1;
    }
  ]

  -- the loop behind a turn that went to the next key
  switched :
      {total : ℕ} {l l' : Locals} {w w' w'' : W K env}
      → l.upstream_attempts < total
      → Switched K env l l' w w'
      → Rotated (total - l'.upstream_attempts) l'.tried w' w''
      → Rotated (total - l.upstream_attempts) l.tried w w''
  switched {total} {l} {l'} {w} h s r = elim s.requests [
    | inl e ↦ record {
      counts = λ k. r.counts k ∙ s.counts k;
      made = r.made;
      distinct = r.distinct;
      untried = IsUntried-tail s.key l.tried r.made (rest r.made r.untried);
      bound = omega (arith, r.bound, e.1);
      requests = r.requests ∙ ap (on_top r.made) e.0;
    }
    | inr e ↦ record {
      counts = λ k. r.counts k ∙ s.counts k;
      made = s.key ∷ r.made;
      distinct = (IsUntried-head s.key l.tried r.made (rest r.made r.untried), r.distinct);
      untried = (s.untried, IsUntried-tail s.key l.tried r.made (rest r.made r.untried));
      bound = omega (arith, r.bound, e.1, h);
      requests = r.requests ∙ ap (on_top r.made) e.0;
    }
  ]
    where
      rest : (ids : List ℕ) → All (IsUntried l'.tried) ids → All (IsUntried (s.key ∷ l.tried)) ids
      rest ids a = subst (λ t. All (IsUntried t) ids) s.tried a

  next_turn :
      (n : ℕ) (q : Request) (total : ℕ) (l : Locals) (w : W K env) (t : Turn K env)
      → l.upstream_attempts < total
      → TurnServed K env l w t
      → ((l' : Locals) (w' : W K env)
          → Rotated (total - l'.upstream_attempts) l'.tried w' (turns K env n q total l' w').1)
      → let r : Option (Result ForwardResult) × W K env = elim t [
        | answered r w' ↦ (r, w')
        | again l' w' ↦ turns K env n q total l' w'
      ] in
        Rotated (total - l.upstream_attempts) l.tried w r.1
  next_turn n q total l w (answered r w') h s rest = ended (omega (arith, h)) s
  next_turn n q total l w (again l' w') h s rest = switched h s (rest l' w')

  pub turns-Rotated :
      (n : ℕ) (q : Request) (total : ℕ) (l : Locals) (w : W K env)
      → Rotated (total - l.upstream_attempts) l.tried w (turns K env n q total l w).1
  unfolding turns
  turns-Rotated zero q total l w = none_made (λ k. refl) refl
  turns-Rotated (suc n) q total l w = elim (Bool-cases (ltb l.upstream_attempts total)) [
    | inl e ↦ rw e (
        next_turn n q total l w (turn K env q total l w) (ground (arith, e))
          (turn-Served K env q total l w) (λ l' w'. turns-Rotated n q total l' w'))
    | inr e ↦ rw e (none_made (λ k. refl) refl)
  ]
