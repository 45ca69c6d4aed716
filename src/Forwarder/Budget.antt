-- ===== src/Forwarder/Budget.antt =====
-- Forwarding with a pinned key in app/core/forwarder.py: the whole loop.
use fcam_gateway.Prelude.{
  ℕ, zero, suc, ◌+◌, ◌-◌, ◌≤◌, ◌<◌, ◌≡◌, refl, ◌∙◌, ap, true, Option, some, ◌++◌, arith, inl, inr,
  replicate, replicate-suc, is_some,
}
use fcam_gateway.Models.{ApiKey, Result}
use fcam_gateway.Concurrency.{current}
use fcam_gateway.Forwarder.{KeyPoolApi, Env}
use fcam_gateway.Forwarder.Marks.{W}
use fcam_gateway.Forwarder.Shared.{Request, ForwardResult}
use fcam_gateway.Forwarder.Pinned.{Round, answered, retry, rounds}
use fcam_gateway.Forwarder.Balance.{Served, RoundServed, round-Served}

module _ (K : KeyPoolApi) (env : Env) where
  -- the leases are back, and at most `n` requests were made, all with that key
  pub record AllServed (n id : ℕ) (w w' : W K env) : Type 0 where
    pub counts : (k : ℕ) → current w'.leases k ≡ current w.leases k
    pub made : ℕ
    pub bound : made ≤ n
    pub requests : w'.sent ≡ replicate made id ++ w.sent

  AllServed-one :
      {id : ℕ} {w w' : W K env} (n : ℕ) → Served K env id w w' → AllServed (suc n) id w w'
  AllServed-one n s = elim s.requests [
    | inl e ↦ record { counts = s.counts; made = 0; bound = omega arith; requests = e }
    | inr e ↦ record { counts = s.counts; made = 1; bound = omega arith; requests = e }
  ]

  AllServed-then :
      {id n : ℕ} {w w' w'' : W K env}
      → Served K env id w w'
      → AllServed n id w' w''
      → AllServed (suc n) id w w''
  AllServed-then {id} {n} {w} s a = elim s.requests [
    | inl e ↦ record {
      counts = λ k. a.counts k ∙ s.counts k;
      made = a.made;
      bound = omega (arith, a.bound);
      requests = a.requests ∙ ap (λ l. replicate a.made id ++ l) e;
    }
    | inr e ↦ record {
      counts = λ k. a.counts k ∙ s.counts k;
      made = suc a.made;
      bound = omega (arith, a.bound);
      requests = a.requests ∙ ap (λ l. replicate a.made id ++ l) e ∙ replicate-suc a.made id w.sent;
    }
  ]

  -- what `rounds` owes: an answer, and the rest of the promise
  abbrev pub Answered : ℕ → ℕ → W K env → Option (Result ForwardResult) × W K env → Type 0
  Answered n id w r = (is_some r.0 ≡ true) × AllServed n id w r.1

  answer_or_again :
      (n m : ℕ) (q : Request) (key : ApiKey) (total attempt : ℕ) (w : W K env) (r : Round K env)
      → RoundServed K env total attempt key.id w r
      → ((w' : W K env)
          → attempt < total - 1
          → Answered n key.id w' (rounds K env m q key total (attempt + 1) w'))
      → Answered (suc n) key.id w (elim r [
        | answered a w' ↦ (some a, w')
        | retry w' ↦ rounds K env m q key total (attempt + 1) w'
      ])
  answer_or_again n m q key total attempt w (answered a w') s rest = (refl, AllServed-one n s)
  answer_or_again n m q key total attempt w (retry w') s rest =
      let a = rest w' s.0 in (a.0, AllServed-then s.1 a.1)

  pub rounds-Answered :
      (n : ℕ) (q : Request) (key : ApiKey) (total attempt : ℕ) (w : W K env)
      → total ≡ attempt + suc n
      → Answered (suc n) key.id w (rounds K env (suc n) q key total attempt w)
  unfolding rounds
  rounds-Answered zero q key total attempt w e =
      answer_or_again 0 0 q key total attempt w _ (round-Served K env q key total attempt w)
        (λ w' h. absurd (omega (arith, h, e)))
  rounds-Answered (suc n) q key total attempt w e =
      answer_or_again (suc n) (suc n) q key total attempt w _
        (round-Served K env q key total attempt w)
        (λ w' h. rounds-Answered n q key total (attempt + 1) w' (omega (arith, e)))
