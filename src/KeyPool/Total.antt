-- ===== src/KeyPool/Total.antt =====
-- The indices that `KeyPool.select` of app/core/key_pool.py takes: `near[0]` and
-- `ordered[cur % len(ordered)]`.
use native.Mathlib.Nat.{mod-lt}
use fcam_gateway.Prelude.{
  ℕ, zero, suc, ◌%◌, ◌<◌, ◌≡◌, refl, true, false, Bool, Option, none, some, List, [], ◌∷◌, All,
  arith, Bool-cases, inl, inr, ◌==◌, is_some, length, get_elem?, if-elim, not, String,
}
use fcam_gateway.Floats.{Floats}
use fcam_gateway.Models.{ApiKey, Session, Result, commit}
use fcam_gateway.KeyPool.{zero_float}
use fcam_gateway.KeyPool.Tally.{no_tally}
use fcam_gateway.KeyPool.Judge.{Around, scan}
use fcam_gateway.KeyPool.Choice.{
  sorted, before, by_id, near, choose_near, total_score, exploit, explore_at,
}
use fcam_gateway.KeyPool.Chosen.{All-sorted, length-sorted}
use fcam_gateway.KeyPool.Select.{Pool, Selected, select, finish, of_provider, any_active, explores}

get_elem-lt {ℓ} :
    {A : Type ℓ} (xs : List A) (i : ℕ) → i < length xs → is_some (get_elem? xs i) ≡ true
get_elem-lt [] i h = absurd (omega (arith, h))
get_elem-lt (x ∷ xs) zero h = refl
get_elem-lt (x ∷ xs) (suc i) h = get_elem-lt xs i (omega (arith, h))

module _ (F : Floats) where
  open F use {Float, of_ℕ, le, lt, mul}

  -- a score that is a number, and not negative
  abbrev pub Nonneg : Float × ApiKey → Type 0
  Nonneg c = le (zero_float F) c.0 ≡ true

  explore_at-some :
      (cursor : ℕ) (cs : List (Float × ApiKey))
      → 0 < length cs
      → is_some (explore_at F cursor cs) ≡ true
  unfolding explore_at
  explore_at-some cursor cs h =
      get_elem-lt (sorted (by_id F) cs) (cursor % length cs)
        (let m = mod-lt cursor h in omega (arith, m, length-sorted (by_id F) cs))

  choose_near-some :
      (pick : Float) (c : Float × ApiKey) (cs : List (Float × ApiKey))
      → is_some (choose_near F pick (c ∷ cs)) ≡ true
  unfolding choose_near
  choose_near-some pick c [] = refl
  choose_near-some pick c (d ∷ cs) =
      if-elim (λ (o : Option (Float × ApiKey)). is_some o ≡ true)
        (le (total_score F (zero_float F) (c ∷ d ∷ cs)) (zero_float F)) refl refl

  -- the best candidate is near the best
  near_best-some :
      (pick ratio : Float) (cs : List (Float × ApiKey))
      → lt (of_ℕ 0) ratio ≡ true
      → le ratio (of_ℕ 1) ≡ true
      → All Nonneg cs
      → 0 < length cs
      → is_some (elim cs [
        | [] ↦ none
        | best ∷ rest ↦ choose_near F pick (near F (mul best.0 ratio) (best ∷ rest))
      ])
        ≡ true
  unfolding near
  near_best-some pick ratio [] q r a h = absurd (omega (arith, h))
  near_best-some pick ratio ((s, k) ∷ cs) q r a h =
      let e = F.mul-le_left s ratio a.0 q r in
      rw e (choose_near-some pick (s, k) (near F (mul s ratio) cs))

  exploit-some :
      (pick ratio : Float) (cs : List (Float × ApiKey))
      → lt (of_ℕ 0) ratio ≡ true
      → le ratio (of_ℕ 1) ≡ true
      → All Nonneg cs
      → 0 < length cs
      → is_some (exploit F pick ratio cs) ≡ true
  unfolding exploit
  exploit-some pick ratio cs q r a h =
      near_best-some pick ratio (sorted (before F) cs) q r (All-sorted Nonneg (before F) cs a)
        (omega (arith, h, length-sorted (before F) cs))

module _ (F : Floats) (second : ℕ) where
  open F use {Float, of_ℕ, le, lt}

  abbrev Answers : Option (Result (Selected F second)) × Pool F second × Session → Type 0
  Answers r = is_some r.0 ≡ true

  finish-Answers :
      (o : Option (Float × ApiKey)) (b : Bool) (pool : Pool F second) (s : Session)
      → is_some o ≡ true
      → Answers (finish F second o b pool s)
  unfolding finish
  finish-Answers none b pool s h = absurd (ground (arith, h))
  finish-Answers (some (score, key)) b pool s h =
      if-elim (λ (o : Option (Result (Selected F second))). is_some o ≡ true) (commit s).0 refl refl

  -- With a `near_ratio` above 0 and up to 1, and where the score of every candidate is a number that
  -- is not negative (no NaN, which a NaN in the settings leads to), a call of `select` ends with a
  -- key or an `FcamError`: it never takes an element of an empty list or one out of range.
  pub select-Answers :
      (a : Around F second) (provider : String) (pool : Pool F second) (s : Session)
      → lt (of_ℕ 0) a.sched.near_ratio ≡ true
      → le a.sched.near_ratio (of_ℕ 1) ≡ true
      → All
          (Nonneg F)
          (scan F second a (of_provider provider s.tables.keys) no_tally pool.penalties).candidates
      → is_some (select F second a provider pool s).0 ≡ true
  unfolding select
  select-Answers a provider pool s q r scores =
      let keys = of_provider provider s.tables.keys in
      let found = scan F second a keys no_tally pool.penalties in
      if-elim Answers (length keys == 0) refl (
        if-elim Answers (not (any_active keys)) refl
          (elim (Bool-cases (length found.candidates == 0)) [
            | inl z ↦ rw z refl
            | inr z ↦
                let some_left : 0 < length found.candidates = ground (arith, z) in
                rw z (
                  if-elim Answers (explores F second a found.candidates)
                    (finish-Answers _ true _ _
                      (explore_at-some F (pool.cursors provider) found.candidates some_left))
                    (finish-Answers _ false _ _ (
                      exploit-some F a.pick a.sched.near_ratio found.candidates q r scores
                        some_left)))
          ]))
