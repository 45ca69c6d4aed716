-- ===== src/Api/Leases.antt =====
-- A request of a client from end to end, app/api/deps.py and app/api/firecrawl_v2_compat.py: the
-- leases of the client and of the keys.
use fcam_gateway.Prelude.{ℕ, ◌≡◌, refl, ◌∙◌, ap, Option, none, some, List, if◌then◌else◌, if-elim}
use fcam_gateway.Models.{Result, ok, err}
use fcam_gateway.Bindings.{bind_resource, lookup_bound_key_id}
use fcam_gateway.Idempotency.{Codec, Settings, Reply, complete}
use fcam_gateway.Concurrency.{Lease, current, release}
use fcam_gateway.Forwarder.{KeyPoolApi, Env}
use fcam_gateway.Forwarder.Shared.{ForwardResult}
use fcam_gateway.Forwarder.Totals.{forward-leases}
use fcam_gateway.Api.Governance.{Moment, Gate, enter, leave}
use fcam_gateway.Api.Governed.{Balanced, enter_limits}
use fcam_gateway.Api.Pipeline.{
  Inbound, Target, Plan, Reader, Gateway, Step, and_then, client, extract_id,
  maybe_bind_created_resource, send_to, is_not_found, forward_with_fallback, reply_of, carry_out,
  run, gate, with_gate, serve,
}

module _ (K : KeyPoolApi) (env : Env) (C : Codec) (reader : Reader C) (settings : Settings) where
  abbrev G : Type 0
  G = Gateway K env C reader settings

  abbrev S : Type 0 → Type 0
  S = Step K env C reader settings

  -- the keys' counters are what they were, and the client's leases are untouched
  record Kept (g g' : G) : Type 0 where
    keys : (k : ℕ) → current g'.world.leases k ≡ current g.world.leases k
    clients : g'.client_leases ≡ g.client_leases

  Kept-refl : (g : G) → Kept g g
  Kept-refl g = record { keys = λ k. refl; clients = refl }

  Kept-trans : {f g h : G} → Kept f g → Kept g h → Kept f h
  Kept-trans a b = record { keys = λ k. b.keys k ∙ a.keys k; clients = b.clients ∙ a.clients }

  and_then-Kept :
      {A B : Type 0} (g : G) (r : S A) (k : A → G → S B)
      → Kept g r.1
      → ((a : A) (g' : G) → Kept g' (k a g').1)
      → Kept g (and_then K env C reader settings r k).1
  unfolding and_then
  and_then-Kept g (none, x) k h f = h
  and_then-Kept g (some (err e), x) k h f = h
  and_then-Kept g (some (ok a), x) k h f = Kept-trans h (f a x)

  send_to-Kept :
      (t : Target) (path : List ℕ) (pin : Option ℕ) (g : G)
      → Kept g (send_to K env C reader settings t path pin g).1
  unfolding send_to
  send_to-Kept t path pin g = record {
    keys = λ k. forward-leases K env _ pin g.world k;
    clients = refl;
  }

  forward_with_fallback-Kept :
      (t : Target) (pin : Option ℕ) (g : G)
      → Kept g (forward_with_fallback K env C reader settings t pin g).1
  unfolding forward_with_fallback
  forward_with_fallback-Kept t pin g =
      and_then-Kept g _ _ (send_to-Kept t t.primary_path pin g) (λ r g1. again r g1 t.fallback_path)
    where
      again :
          (r : ForwardResult) (g1 : G) (o : Option (List ℕ))
          → Kept g1
              (elim o as (λ x. S ForwardResult) [
                | none ↦ (some (ok r), g1)
                | some path ↦
                    if is_not_found r.answer.status
                    then send_to K env C reader settings t path pin g1
                    else (some (ok r), g1)
              ]).1
      again r g1 none = Kept-refl g1
      again r g1 (some path) =
          if-elim (λ (x : S ForwardResult). Kept g1 x.1) _ (send_to-Kept t path pin g1)
            (Kept-refl g1)

  maybe_bind-Kept :
      (kind : List ℕ) (r : ForwardResult) (g : G)
      → Kept g (maybe_bind_created_resource K env C reader settings kind r g)
  unfolding maybe_bind_created_resource
  maybe_bind-Kept kind r g = go (extract_id K env C reader settings r.answer) r.api_key_id
    where
      go :
          (o : Option (List ℕ)) (key : Option ℕ)
          → Kept g (elim o as (λ x. G) [
            | none ↦ g
            | some id ↦ elim key as (λ x. G) [
              | none ↦ g
              | some k ↦ record g {
                bindings =
                    bind_resource g.world.clock
                      (client K env C reader settings g).id
                      k
                      kind
                      id
                      none
                      g.bindings;
              }
            ]
          ])
      go none key = Kept-refl g
      go (some id) none = Kept-refl g
      go (some id) (some k) = record { keys = λ k. refl; clients = refl }

  carry_out-Kept :
      (kind : Option (List ℕ)) (ctx : Option ℕ) (t : Target) (g : G)
      → Kept g (carry_out K env C reader settings kind ctx t g).1
  unfolding carry_out
  carry_out-Kept kind ctx t g =
      and_then-Kept g _ _ (forward_with_fallback-Kept t none g) (λ r g1. bound r g1 kind)
    where
      bound :
          (r : ForwardResult) (g1 : G) (o : Option (List ℕ))
          → let g2 : G = elim o [
            | none ↦ g1
            | some k ↦ maybe_bind_created_resource K env C reader settings k r g1
          ] in
            Kept g1 (record g2 {
              records = complete C settings ctx (reply_of K env C reader settings r) g2.records;
            })
      bound r g1 none = record { keys = λ k. refl; clients = refl }
      bound r g1 (some kind) =
          let h = maybe_bind-Kept kind r g1 in record { keys = h.keys; clients = h.clients }

  run-Kept : (x : Inbound) (p : Plan) (g : G) → Kept g (run K env C reader settings x p g).1
  unfolding run
  run-Kept x (Plan.forwards t) g =
      and_then-Kept g _ _ (forward_with_fallback-Kept t none g) (λ r g1. Kept-refl g1)
  run-Kept x (Plan.looks_up kind id t) g =
      let found =
        lookup_bound_key_id g.world.clock (client K env C reader settings g).id kind id
          g.bindings in
      let g0 : G = record g { bindings = found.1 } in
      let h = forward_with_fallback-Kept t found.0 g0 in
      and_then-Kept g _ _ (record { keys = h.keys; clients = h.clients }) (λ r g1. Kept-refl g1)
  run-Kept x (Plan.creates kind t) g =
      and_then-Kept g _ _ (forward_with_fallback-Kept t none g) (λ r g1. maybe_bind-Kept kind r g1)
  run-Kept x (Plan.begins endpoint kind t) g =
      and_then-Kept g _ _ (record { keys = λ k. refl; clients = refl })
        (λ (a : Option ℕ × Option (Reply C)) (g1 : G). go a.0 a.1 g1)
    where
      go :
          (ctx : Option ℕ) (o : Option (Reply C)) (g1 : G)
          → Kept g1
              (elim o as (λ x. S (Reply C)) [
                | some replay ↦ (some (ok replay), g1)
                | none ↦ carry_out K env C reader settings kind ctx t g1
              ]).1
      go ctx none g1 = carry_out-Kept kind ctx t g1
      go ctx (some replay) g1 = Kept-refl g1

  -- Whatever route a request of a client takes, and whether it is refused, replayed, answered or
  -- ends in an error: afterwards each client's and each key's counter of leases is what it was.
  pub serve-leases :
      (m : Moment) (x : Inbound) (p : Plan) (g : G) (k : ℕ)
      → let g' = (serve K env C reader settings m x p g).1 in
        (current g'.client_leases k ≡ current g.client_leases k)
        × (current g'.world.leases k ≡ current g.world.leases k)
  unfolding serve leave
  serve-leases m x p g k =
      go (enter m (gate K env C reader settings g))
        (enter_limits m (gate K env C reader settings g)).0
    where
      go :
          (e : Result Lease × Gate)
          → Balanced g.client_leases e
          → let g1 = with_gate K env C reader settings g e.1 in
            let g' : G =
              (elim e.0 as (λ x. S (Reply C)) [
                | err f ↦ (some (err f), g1)
                | ok lease ↦
                    let r = run K env C reader settings x p g1 in
                    (
                      r.0,
                      with_gate K env C reader settings r.1
                          (leave lease (gate K env C reader settings r.1)),
                    )
              ]).1 in
            (current g'.client_leases k ≡ current g.client_leases k)
            × (current g'.world.leases k ≡ current g.world.leases k)
      go (err f, c) b = (b k, refl)
      go (ok lease, c) b =
          let h = run-Kept x p (with_gate K env C reader settings g c) in
          (ap (λ s. current (release s lease).1 k) h.clients ∙ b k, h.keys k)
