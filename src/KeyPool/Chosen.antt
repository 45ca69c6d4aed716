-- ===== src/KeyPool/Chosen.antt =====
-- The choice of app/core/key_pool.py: what is chosen is a candidate.
use fcam_gateway.Prelude.{
  ℕ, zero, suc, ◌%◌, ◌≡◌, refl, Bool, none, some, List, [], ◌∷◌, All, length, get_elem?, arith,
  Bool-cases, some_inj, inl, inr,
}
use mathlib.Core.Path.{subst}
use fcam_gateway.Floats.{Floats}
use fcam_gateway.Models.{ApiKey}
use fcam_gateway.KeyPool.{zero_float, fmax}
use fcam_gateway.KeyPool.Choice.{
  insert_sorted, sorted, before, near, weighted, choose_near, exploit, explore_at, total_score,
  by_id,
}

module _ {ℓ κ} {A : Type ℓ} (P : A → Type κ) (le : A → A → Bool) where
  All-insert_sorted : (x : A) (xs : List A) → P x → All P xs → All P (insert_sorted le x xs)
  unfolding insert_sorted
  All-insert_sorted x [] p a = (p, tt)
  All-insert_sorted x (y ∷ ys) p a = elim (Bool-cases (le x y)) [
    | inl h ↦ rw h (p, a)
    | inr h ↦ rw h (a.0, All-insert_sorted x ys p a.1)
  ]

  pub All-sorted : (xs : List A) → All P xs → All P (sorted le xs)
  unfolding sorted
  All-sorted [] a = tt
  All-sorted (x ∷ xs) a = All-insert_sorted x (sorted le xs) a.0 (All-sorted xs a.1)

  pub All-get_elem? : (xs : List A) (i : ℕ) (x : A) → All P xs → get_elem? xs i ≡ some x → P x
  All-get_elem? [] i x a h = cc
  All-get_elem? (y ∷ ys) zero x a h = subst P (some_inj h) a.0
  All-get_elem? (y ∷ ys) (suc i) x a h = All-get_elem? ys i x a.1 h

length-insert_sorted {ℓ} :
    {A : Type ℓ} (le : A → A → Bool) (x : A) (xs : List A)
    → length (insert_sorted le x xs) ≡ suc (length xs)
unfolding insert_sorted
length-insert_sorted le x [] = refl
length-insert_sorted le x (y ∷ ys) = ground (arith, length-insert_sorted le x ys)

pub length-sorted {ℓ} :
    {A : Type ℓ} (le : A → A → Bool) (xs : List A) → length (sorted le xs) ≡ length xs
unfolding sorted
length-sorted le [] = refl
length-sorted le (x ∷ xs) =
    omega (arith, length-insert_sorted le x (sorted le xs), length-sorted le xs)

module _ (F : Floats) where
  open F use {Float, of_ℕ, le, mul}

  module _ {κ} (P : Float × ApiKey → Type κ) where
    All-near : (b : Float) (cs : List (Float × ApiKey)) → All P cs → All P (near F b cs)
    unfolding near
    All-near b [] a = tt
    All-near b ((s, k) ∷ cs) a = elim (Bool-cases (le b s)) [
      | inl h ↦ rw h (a.0, All-near b cs a.1)
      | inr h ↦ rw h (All-near b cs a.1)
    ]

    weighted-All :
        (r acc : Float) (c : Float × ApiKey) (cs : List (Float × ApiKey))
        → P c
        → All P cs
        → P (weighted F r acc c cs)
    unfolding weighted
    weighted-All r acc c [] p a = p
    weighted-All r acc c ((s, k) ∷ cs) p a =
        elim (Bool-cases (le r (F.add acc (fmax F s (zero_float F))))) [
          | inl h ↦ rw h a.0
          | inr h ↦ rw h (weighted-All r (F.add acc (fmax F s (zero_float F))) c cs p a.1)
        ]

    choose_near-All :
        (pick : Float) (cs : List (Float × ApiKey)) (c : Float × ApiKey)
        → All P cs
        → choose_near F pick cs ≡ some c
        → P c
    unfolding choose_near
    choose_near-All pick [] c a h = cc
    choose_near-All pick (d ∷ []) c a h = subst P (some_inj h) a.0
    choose_near-All pick (d ∷ e ∷ cs) c a h =
        let total = total_score F (zero_float F) (d ∷ e ∷ cs) in
        elim (Bool-cases (le total (zero_float F))) [
          | inl z ↦ subst P (some_inj (rw z at h)) a.0
          | inr n ↦
              subst P (some_inj (rw n at h))
                (weighted-All (mul pick total) (zero_float F) d (d ∷ e ∷ cs) a.0 a)
        ]

    exploit_head :
        (pick ratio : Float) (cs : List (Float × ApiKey)) (c : Float × ApiKey)
        → ((best : Float × ApiKey) (rest : List (Float × ApiKey))
            → cs ≡ best ∷ rest
            → All P (near F (mul best.0 ratio) (best ∷ rest)))
        → elim cs [
          | [] ↦ none
          | best ∷ rest ↦ choose_near F pick (near F (mul best.0 ratio) (best ∷ rest))
        ]
          ≡ some c
        → P c
    exploit_head pick ratio [] c a h = cc
    exploit_head pick ratio (best ∷ rest) c a h = choose_near-All pick _ c (a best rest refl) h

    -- what the exploit path picks is one of the candidates
    pub exploit-All :
        (pick ratio : Float) (cs : List (Float × ApiKey)) (c : Float × ApiKey)
        → All P cs
        → exploit F pick ratio cs ≡ some c
        → P c
    unfolding exploit
    exploit-All pick ratio cs c a h =
        exploit_head pick ratio (sorted (before F) cs) c
          (λ best rest e.
            All-near (mul best.0 ratio) (best ∷ rest)
              (subst (All P) e (All-sorted P (before F) cs a)))
          h

    -- and so is what the rotation picks
    pub explore_at-All :
        (cursor : ℕ) (cs : List (Float × ApiKey)) (c : Float × ApiKey)
        → All P cs
        → explore_at F cursor cs ≡ some c
        → P c
    unfolding explore_at
    explore_at-All cursor cs c a h =
        All-get_elem? P (by_id F) (sorted (by_id F) cs) (cursor % length cs) c
          (All-sorted P (by_id F) cs a) h
