-- ===== src/Forwarder/Totals.antt =====
-- `Forwarder.forward` of app/core/forwarder.py as a whole: its leases and its requests.
use fcam_gateway.Prelude.{
  ℕ, zero, suc, ◌+◌, ◌≤◌, ◌<◌, ◌≡◌, refl, sym, subst, ap, true, not, Option, none, some, List, [],
  ◌∷◌, ◌++◌, arith, if◌then◌else◌, is_some, length, if-elim, replicate,
}
use fcam_gateway.Models.{ApiKey, Result}
use fcam_gateway.Concurrency.{current}
use fcam_gateway.Forwarder.{KeyPoolApi, Env}
use fcam_gateway.Forwarder.Outcome.{retry_budget}
use fcam_gateway.Forwarder.Marks.{W, row}
use fcam_gateway.Forwarder.Shared.{Request, ForwardResult, has_base_url, provider_max_retries}
use fcam_gateway.Forwarder.Pinned.{rounds}
use fcam_gateway.Forwarder.Rotation.{at_start}
use fcam_gateway.Forwarder.Forward.{selection_tries, may_pin, attempts, rotate, pinned, forward}
use fcam_gateway.Forwarder.Budget.{AllServed, Answered, rounds-Answered}
use fcam_gateway.Forwarder.Requests.{Rotated, turns-Rotated, on_top, IsDistinct}

length-on_top : (ids sent : List ℕ) → length (on_top ids sent) ≡ length ids + length sent
length-on_top [] sent = omega arith
length-on_top (x ∷ xs) sent = omega (arith, length-on_top xs (x ∷ sent))

length-replicate : (n id : ℕ) (sent : List ℕ) → length (replicate n id ++ sent) ≡ n + length sent
length-replicate zero id sent = omega arith
length-replicate (suc n) id sent = omega (arith, length-replicate n id sent)

module _ (K : KeyPoolApi) (env : Env) where
  -- a call's leases are back, and it made at most `n` requests
  record Kept (n : ℕ) (w w' : W K env) : Type 0 where
    counts : (k : ℕ) → current w'.leases k ≡ current w.leases k
    bound : length w'.sent ≤ length w.sent + n

  rotate-Rotated :
      (q : Request) (w : W K env) → Rotated K env (attempts K env q) [] w (rotate K env q w).1
  unfolding rotate
  rotate-Rotated q w =
      let r =
        turns-Rotated K env (selection_tries (attempts K env q)) q (attempts K env q) at_start w in
      record {
        counts = r.counts;
        made = r.made;
        distinct = r.distinct;
        untried = r.untried;
        bound = omega (arith, r.bound);
        requests = r.requests;
      }

  rotate-Kept : (q : Request) (w : W K env) → Kept (attempts K env q) w (rotate K env q w).1
  rotate-Kept q w =
      let r = rotate-Rotated q w in
      record {
        counts = r.counts;
        bound = omega (arith, r.bound, ap length r.requests, length-on_top r.made w.sent);
      }

  Answered-only :
      (n id : ℕ) (q : Request) (w : W K env) (r : Option (Result ForwardResult) × W K env)
      → Answered K env n id w r
      → let p : Option (Result ForwardResult) × W K env = elim r.0 [
        | none ↦ rotate K env q r.1
        | some answer ↦ (some answer, r.1)
      ] in
        Answered K env n id w p
  Answered-only n id q w (none, w') a = absurd (ground (arith, a.0))
  Answered-only n id q w (some x, w') a = a

  rounds_all :
      (n : ℕ) (q : Request) (key : ApiKey) (w : W K env)
      → 0 < n
      → Answered K env n key.id w (rounds K env n q key n 0 w)
  rounds_all zero q key w h = absurd (omega (arith, h))
  rounds_all (suc n) q key w h = rounds-Answered K env n q key (suc n) 0 w (omega arith)

  attempts_pos : (q : Request) → 0 < attempts K env q
  unfolding retry_budget
  attempts_pos q = go q.max_retries
    where
      go : (m : Option ℕ) → 0 < retry_budget m (provider_max_retries env.config q.provider)
      go none = omega arith
      go (some n) = omega arith

  pinned-Answered :
      (q : Request) (key : ApiKey) (w : W K env)
      → Answered K env (attempts K env q) key.id w (pinned K env q key w)
  unfolding pinned
  pinned-Answered q key w =
      Answered-only (attempts K env q) key.id q w _
        (rounds_all (attempts K env q) q key w (attempts_pos q))

  AllServed-Kept : (n id : ℕ) {w w' : W K env} → AllServed K env n id w w' → Kept n w w'
  AllServed-Kept n id {w} a = record {
    counts = a.counts;
    bound = omega (arith, a.bound, ap length a.requests, length-replicate a.made id w.sent);
  }

  -- what holds of the pool and of every pinned key holds of a call that passes the checks
  pub by_route :
      (P : Option (Result ForwardResult) × W K env → Type 0) (q : Request) (pin : Option ℕ)
      (w : W K env)
      → P (rotate K env q w)
      → ((key : ApiKey) → P (pinned K env q key w))
      → P (elim pin [
        | none ↦ rotate K env q w
        | some id ↦ elim (row K env w id) [
          | none ↦ rotate K env q w
          | some key ↦ if may_pin q key then pinned K env q key w else rotate K env q w
        ]
      ])
  by_route P q none w r p = r
  by_route P q (some id) w r p = go (row K env w id)
    where
      go :
          (found : Option ApiKey)
          → P (elim found [
            | none ↦ rotate K env q w
            | some key ↦ if may_pin q key then pinned K env q key w else rotate K env q w
          ])
      go none = r
      go (some key) = if-elim P (may_pin q key) (p key) r

  forward-Kept :
      (q : Request) (pin : Option ℕ) (w : W K env)
      → Kept (attempts K env q) w (forward K env q pin w).1
  unfolding forward
  forward-Kept q pin w = if-elim P (not env.has_master_key) same (
      if-elim P (not (has_base_url env.config q.provider)) same (
        by_route P q pin w (rotate-Kept q w)
          (λ key. AllServed-Kept _ key.id (pinned-Answered q key w).1)))
    where
      P : Option (Result ForwardResult) × W K env → Type 0
      P r = Kept (attempts K env q) w r.1

      same : Kept (attempts K env q) w w
      same = record { counts = λ k. refl; bound = omega arith }

-- Whatever a call of `forward` ends with, an answer or an error, at the end each key's counter of
-- leases is what it was before.
pub forward-leases :
    (K : KeyPoolApi) (env : Env) (q : Request) (pin : Option ℕ) (w : W K env) (k : ℕ)
    → current (forward K env q pin w).1.leases k ≡ current w.leases k
forward-leases K env q pin w k = (forward-Kept K env q pin w).counts k

-- A call of `forward` makes at most as many upstream requests as its retry budget allows, with a
-- pinned key or without.
pub forward_budget :
    (K : KeyPoolApi) (env : Env) (q : Request) (pin : Option ℕ) (w : W K env)
    → length (forward K env q pin w).1.sent
      ≤ length w.sent + retry_budget q.max_retries (provider_max_retries env.config q.provider)
forward_budget K env q pin w = (forward-Kept K env q pin w).bound

-- A call over the pool sends the request to no key twice.
pub rotate-IsDistinct :
    (K : KeyPoolApi) (env : Env) (q : Request) (w : W K env)
    → (made : List ℕ) × IsDistinct made × ((rotate K env q w).1.sent ≡ on_top made w.sent)
rotate-IsDistinct K env q w = let r = rotate-Rotated K env q w in (r.made, r.distinct, r.requests)

forward-pinned :
    (K : KeyPoolApi) (env : Env) (q : Request) (id : ℕ) (key : ApiKey) (w : W K env)
    → row K env w id ≡ some key
    → may_pin q key ≡ true
    → env.has_master_key ≡ true
    → has_base_url env.config q.provider ≡ true
    → forward K env q (some id) w ≡ pinned K env q key w
unfolding forward
forward-pinned K env q id key w found usable master base = simp (master, base, found, usable) refl

-- Where there is a master key and a base URL of the provider, a call with a pinned key that is not
-- disabled and is of the request's provider returns an answer or an `FcamError`, and all of its requests go out with that key, within the retry budget.
pub pinned_only :
    (K : KeyPoolApi) (env : Env) (q : Request) (id : ℕ) (key : ApiKey) (w : W K env)
    → row K env w id ≡ some key
    → may_pin q key ≡ true
    → env.has_master_key ≡ true
    → has_base_url env.config q.provider ≡ true
    → (is_some (forward K env q (some id) w).0 ≡ true)
      × ((made : ℕ) × (made
            ≤ retry_budget q.max_retries (provider_max_retries env.config q.provider))
          × ((forward K env q (some id) w).1.sent ≡ replicate made key.id ++ w.sent))
pinned_only K env q id key w found usable master base =
    let a =
      subst (λ r. Answered K env (attempts K env q) key.id w r)
        (sym (forward-pinned K env q id key w found usable master base))
        (pinned-Answered K env q key w) in
    (a.0, (a.1.made, a.1.bound, a.1.requests))
