-- ===== src/KeyPool/Choice.antt =====
-- `KeyPool.select` of app/core/key_pool.py: the choice among the candidates, by score or by rotation.
use fcam_gateway.Prelude.{
  ℕ, ◌%◌, Bool, true, false, Option, none, some, leb, if◌then◌else◌, List, [], ◌∷◌, get_elem?,
  length,
}
use fcam_gateway.Floats.{Floats}
use fcam_gateway.Models.{ApiKey}
use fcam_gateway.KeyPool.{fmax, lt, zero_float}

-- Python's `sorted` by an order: insertion, stable
module _ {ℓ} {A : Type ℓ} (le : A → A → Bool) where
  unfoldable pub insert_sorted : A → List A → List A
  insert_sorted x [] = x ∷ []
  insert_sorted x (y ∷ ys) = if le x y then x ∷ y ∷ ys else y ∷ insert_sorted x ys

  unfoldable pub sorted : List A → List A
  unfolding insert_sorted
  sorted [] = []
  sorted (x ∷ xs) = insert_sorted x (sorted xs)

module _ (F : Floats) where
  open F use {Float, le, add, mul}

  -- the order of `(-score, id)`
  unfoldable pub before : Float × ApiKey → Float × ApiKey → Bool
  before (s, k) (s', k') = if lt F s' s then true else if lt F s s' then false else leb k.id k'.id

  unfoldable pub by_id : Float × ApiKey → Float × ApiKey → Bool
  by_id (s, k) (s', k') = leb k.id k'.id

  -- the elements whose score reaches a bound
  unfoldable pub near : Float → List (Float × ApiKey) → List (Float × ApiKey)
  near bound [] = []
  near bound ((s, k) ∷ cs) = if le bound s then (s, k) ∷ near bound cs else near bound cs

  unfoldable pub total_score : Float → List (Float × ApiKey) → Float
  total_score acc [] = acc
  total_score acc ((s, k) ∷ cs) = total_score (add acc (fmax F s (zero_float F))) cs

  -- the walk to the drawn point; `first` is the answer where it never reaches it
  unfoldable pub weighted : Float → Float → Float × ApiKey → List (Float × ApiKey) → Float × ApiKey
  weighted r acc first [] = first
  weighted r acc first ((s, k) ∷ cs) =
      let acc' = add acc (fmax F s (zero_float F)) in
      let rest = weighted r acc' first cs in if le r acc' then (s, k) else rest

  -- `near[0]` where the list has one entry or no weight, the drawn one elsewhere; `none` stands
  -- for the IndexError of `near[0]` on an empty list
  unfoldable pub choose_near : Float → List (Float × ApiKey) → Option (Float × ApiKey)
  unfolding total_score weighted
  choose_near pick [] = none
  choose_near pick (c ∷ []) = some c
  choose_near pick (c ∷ d ∷ cs) =
      let total = total_score (zero_float F) (c ∷ d ∷ cs) in
      if le total (zero_float F)
      then some c
      else some (weighted (mul pick total) (zero_float F) c (c ∷ d ∷ cs))

  -- the exploit path
  unfoldable pub exploit : Float → Float → List (Float × ApiKey) → Option (Float × ApiKey)
  unfolding near choose_near
  exploit pick near_ratio candidates = elim (sorted before candidates) [
    | [] ↦ none
    | best ∷ rest ↦ choose_near pick (near (mul best.0 near_ratio) (best ∷ rest))
  ]

  -- the rotation: `ordered[cur % len(ordered)]`
  unfoldable pub explore_at : ℕ → List (Float × ApiKey) → Option (Float × ApiKey)
  unfolding by_id
  explore_at cursor candidates = get_elem? (sorted by_id candidates) (cursor % length candidates)
