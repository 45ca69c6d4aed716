-- ===== src/Api/Created.antt =====
-- app/api/firecrawl_v2_compat.py: what a handler that creates a resource leaves in the bindings, and
-- what a lookup finds there.
use fcam_gateway.Prelude.{
  ℕ, ◌≡◌, refl, sym, ap, subst, Bool, false, ◌&&◌, Option, none, some, List, [], ◌∷◌, is_some,
  some_inj, if◌then◌else◌,
}
use fcam_gateway.Prelude.Text.{strip}
use fcam_gateway.Models.{ok, err}
use fcam_gateway.Bindings.{Table, find, place_of, lookup_bound_key_id}
use fcam_gateway.Bindings.Refines.{table}
use fcam_gateway.Bindings.Promise.{bind-lookup}
use fcam_gateway.Idempotency.{Codec, Settings, Reply, start_or_replay}
use fcam_gateway.Forwarder.{KeyPoolApi, Env}
use fcam_gateway.Forwarder.Shared.{ForwardResult}
use fcam_gateway.Api.Pipeline.{
  Inbound, Target, Plan, Reader, Gateway, Step, and_then, client, extract_id,
  maybe_bind_created_resource, send_to, is_not_found, forward_with_fallback, reply_of, carry_out,
  run,
}
use fcam_gateway.Api.Routes.Resources.{kind, Makes, plainly, with_key}

abbrev pub target_of : Plan → Target
target_of (Plan.forwards t) = t
target_of (Plan.looks_up kind id t) = t
target_of (Plan.creates kind t) = t
target_of (Plan.begins endpoint kind t) = t

module _ (K : KeyPoolApi) (env : Env) (C : Codec) (reader : Reader C) (settings : Settings) where
  abbrev G : Type 0
  G = Gateway K env C reader settings

  abbrev S : Type 0 → Type 0
  S = Step K env C reader settings

  abbrev unanswered : S (Option ℕ × Option (Reply C)) → Option G
  unanswered (some (ok (ctx, none)), g) = some g
  unanswered (some (ok (ctx, some r)), g) = none
  unanswered (some (err f), g) = none
  unanswered (none, g) = none

  -- the state in which a handler begins to forward, where it is not answered before
  abbrev pub entered : Inbound → Plan → G → Option G
  entered x (Plan.forwards t) g = some g
  entered x (Plan.looks_up kind id t) g = some g
  entered x (Plan.creates kind t) g = some g
  entered x (Plan.begins endpoint kind t) g =
      let s =
        start_or_replay C settings (client K env C reader settings g).id x.idempotency_key endpoint
          (x.digest endpoint) g.world.clock g.records in
      unanswered (s.0, record g { records = s.1 })

  carried :
      (k : List ℕ) (t : Target) (r : ForwardResult) (g0 g' : G)
      (s : S (Option ℕ × Option (Reply C)))
      → unanswered s ≡ some g0
      → forward_with_fallback K env C reader settings t none g0 ≡ (some (ok r), g')
      → (and_then K env C reader settings s (λ a g1. elim a.1 as (λ x. S (Reply C)) [
        | some replay ↦ (some (ok replay), g1)
        | none ↦ carry_out K env C reader settings (some k) a.0 t g1
      ])).1.bindings
        ≡ (maybe_bind_created_resource K env C reader settings k r g').bindings
  unfolding and_then carry_out
  carried k t r g0 g' (some (ok (ctx, none)), g1) e fw =
      let q : g1 ≡ g0 = some_inj e in
      let f : forward_with_fallback K env C reader settings t none g1 ≡ (some (ok r), g') =
        subst (λ z. forward_with_fallback K env C reader settings t none z ≡ (some (ok r), g'))
          (sym q) fw in
      rw (carry_out, f) refl
  carried k t r g0 g' (some (ok (ctx, some x)), g1) e fw = cc
  carried k t r g0 g' (some (err f), g1) e fw = cc
  carried k t r g0 g' (none, g1) e fw = cc

  pub run-binds :
      (k : List ℕ) (x : Inbound) (p : Plan) (g g0 g' : G) (r : ForwardResult)
      → Makes k p
      → entered x p g ≡ some g0
      → forward_with_fallback K env C reader settings (target_of p) none g0 ≡ (some (ok r), g')
      → (run K env C reader settings x p g).1.bindings
        ≡ (maybe_bind_created_resource K env C reader settings k r g').bindings
  unfolding run and_then
  run-binds k x _ g g0 g' r (plainly t) e fw =
      let q : g ≡ g0 = some_inj e in
      let f : forward_with_fallback K env C reader settings t none g ≡ (some (ok r), g') =
        subst (λ z. forward_with_fallback K env C reader settings t none z ≡ (some (ok r), g'))
          (sym q) fw in
      rw (run, f) refl
  run-binds k x _ g g0 g' r (with_key endpoint t) e fw = carried k t r g0 g' _ e fw

  -- whether the answer to the first path leads on to the second one
  abbrev pub falls_back : Target → Option ℕ → G → Bool
  falls_back t pin g = elim (send_to K env C reader settings t t.primary_path pin g).0 [
    | none ↦ false
    | some (err f) ↦ false
    | some (ok r) ↦ is_some t.fallback_path && is_not_found r.answer.status
  ]

  pub first_only :
      (t : Target) (pin : Option ℕ) (g : G)
      → falls_back t pin g ≡ false
      → forward_with_fallback K env C reader settings t pin g
        ≡ send_to K env C reader settings t t.primary_path pin g
  unfolding forward_with_fallback and_then
  first_only t pin g h =
      go (send_to K env C reader settings t t.primary_path pin g) t.fallback_path h
    where
      go :
          (s : S ForwardResult) (o : Option (List ℕ))
          → (elim s.0 as (λ x. Bool) [
            | none ↦ false
            | some (err f) ↦ false
            | some (ok r) ↦ is_some o && is_not_found r.answer.status
          ])
            ≡ false
          → and_then K env C reader settings s (λ r g1. elim o as (λ x. S ForwardResult) [
            | none ↦ (some (ok r), g1)
            | some path ↦
                if is_not_found r.answer.status
                then send_to K env C reader settings t path pin g1
                else (some (ok r), g1)
          ])
            ≡ s
      go (none, g) o h = refl
      go (some (err f), g) o h = refl
      go (some (ok r), g) none h = refl
      go (some (ok r), g) (some path) h = rw h refl

  table_eta : (t : Table) → t.outcomes ≡ [] → t ≡ table t.rows
  table_eta t h = ap (λ o. let u : Table = record { rows = t.rows; outcomes = o } in u) h

  pub bound_key :
      (k id job : List ℕ) (r : ForwardResult) (g : G) (key later c : ℕ) (cs : List ℕ)
      → extract_id K env C reader settings r.answer ≡ some id
      → r.api_key_id ≡ some key
      → strip id ≡ c ∷ cs
      → strip job ≡ c ∷ cs
      → g.bindings.outcomes ≡ []
      → find (place_of (client K env C reader settings g).id k (c ∷ cs)) g.bindings.rows ≡ none
      → (lookup_bound_key_id later
          (client K env C reader settings g).id
          k
          job
          (maybe_bind_created_resource K env C reader settings k r g).bindings).0
        ≡ some key
  unfolding maybe_bind_created_resource
  bound_key k id job r g key later c cs has by e e' smooth free =
      rw (maybe_bind_created_resource, has, by, table_eta g.bindings smooth)
        (bind-lookup g.world.clock later (client K env C reader settings g).id key k id job none
          g.bindings.rows c cs e e' free refl)

  -- the answer of a forwarding, as a handler passes it on
  replied-world :
      (s : S ForwardResult)
      → (and_then K env C reader settings s
          (λ r g1. (some (ok (reply_of K env C reader settings r)), g1))).1
        ≡ s.1
  unfolding and_then
  replied-world (none, g) = refl
  replied-world (some (err f), g) = refl
  replied-world (some (ok r), g) = refl
