-- ===== src/Prelude/Select.antt =====
-- Rows selected by a Boolean test: queries, updates and deletions.
use Prim.Native.Nat.{ℕ}
use mathlib.Core.Bool.{Bool, true, false, ◌&&◌, not}
use mathlib.Core.Option.{Option, none, some}
use mathlib.Core.List.{List, [], ◌∷◌, map}
use mathlib.Core.Path.{◌≡◌, refl, ap}
use mathlib.Core.Logic.{inl, inr}
use native.Mathlib.Omega.{arith}
use fcam_gateway.Prelude.Tests.{if◌then◌else◌, ◌==◌, Bool-cases}
use fcam_gateway.Prelude.Lists.{elem}

module _ {ℓ} {A : Type ℓ} where
  -- `query(A).filter(test).one_or_none()`
  unfoldable pub find_by : (A → Bool) → List A → Option A
  find_by test [] = none
  find_by test (x ∷ xs) = let rest = find_by test xs in if test x then some x else rest

  -- `query(A).filter(test).update(...)`
  unfoldable pub update_by : (A → Bool) → (A → A) → List A → List A
  update_by test f [] = []
  update_by test f (x ∷ xs) = (if test x then f x else x) ∷ update_by test f xs

  -- `query(A).filter(test).delete()`
  unfoldable pub without : (A → Bool) → List A → List A
  without test [] = []
  without test (x ∷ xs) = let rest = without test xs in if test x then rest else x ∷ rest

  unfoldable pub all_of : (A → Bool) → List A → Bool
  all_of test [] = true
  all_of test (x ∷ xs) = test x && all_of test xs

-- no number stands twice in the list
unfoldable pub distinct : List ℕ → Bool
distinct [] = true
distinct (x ∷ xs) = not (elem x xs) && distinct xs

module _ {ℓ} {A : Type ℓ} (ok : A → Bool) where
  pub all_of-update_by :
      (test : A → Bool) (f : A → A) (xs : List A)
      → ((x : A) → ok x ≡ true → ok (f x) ≡ true)
      → all_of ok xs ≡ true
      → all_of ok (update_by test f xs) ≡ true
  unfolding all_of update_by
  all_of-update_by test f [] keeps h = refl
  all_of-update_by test f (x ∷ xs) keeps h =
      ground (arith, keeps x, all_of-update_by test f xs keeps)

  pub all_of-without :
      (test : A → Bool) (xs : List A) → all_of ok xs ≡ true → all_of ok (without test xs) ≡ true
  unfolding all_of without
  all_of-without test [] h = refl
  all_of-without test (x ∷ xs) h = ground (arith, all_of-without test xs)

  pub all_of-map :
      (f : A → A) (xs : List A)
      → ((x : A) → ok x ≡ true → ok (f x) ≡ true)
      → all_of ok xs ≡ true
      → all_of ok (map f xs) ≡ true
  unfolding all_of
  all_of-map f [] keeps h = refl
  all_of-map f (x ∷ xs) keeps h = ground (arith, keeps x, all_of-map f xs keeps)

module _ {ℓ} {A : Type ℓ} (test : A → Bool) (f : A → A) where
  pub find_by-update_by :
      (xs : List A) (a : A)
      → ((x : A) → test (f x) ≡ test x)
      → find_by test xs ≡ some a
      → find_by test (update_by test f xs) ≡ some (f a)
  unfolding find_by update_by
  find_by-update_by [] a keeps h = cc
  find_by-update_by (x ∷ xs) a keeps h = elim (Bool-cases (test x)) [
    | inl e ↦
        (let h' : some x ≡ some a = rw e at h in
          let s : x ≡ a = cc in rw (e, keeps x, e) (ap (λ y. some (f y)) s))
    | inr e ↦ rw (e, e) (find_by-update_by xs a keeps (rw e at h))
  ]

module _ {ℓ} {A : Type ℓ} (test : A → Bool) where
  -- the rows that are deleted are gone
  pub without-none : (xs : List A) → all_of (λ x. not (test x)) (without test xs) ≡ true
  unfolding all_of without
  without-none [] = refl
  without-none (x ∷ xs) = ground (arith, without-none xs)

  -- an update that takes rows out of the selection
  pub update_by-none :
      (f : A → A) (xs : List A)
      → ((x : A) → test (f x) ≡ false)
      → all_of (λ x. not (test x)) (update_by test f xs) ≡ true
  unfolding all_of update_by
  update_by-none f [] out = refl
  update_by-none f (x ∷ xs) out = ground (arith, out x, update_by-none f xs out)

module _ {ℓ} {A : Type ℓ} (column : A → ℕ) (i : ℕ) where
  pub without-elem : (xs : List A) → elem i (map column (without (λ x. column x == i) xs)) ≡ false
  unfolding without
  without-elem [] = refl
  without-elem (x ∷ xs) = ground (arith, without-elem xs)

  -- a number that is no id is referred to by no row, where every reference is an id
  pub referred :
      (ids : List ℕ) (xs : List A)
      → all_of (λ x. elem (column x) ids) xs ≡ true
      → elem i ids ≡ false
      → elem i (map column xs) ≡ false
  unfolding all_of
  referred ids [] all away = refl
  referred ids (x ∷ xs) all away = ground (arith, all, away, referred ids xs)

module _ {ℓ} {A : Type ℓ} (test other : A → Bool) (f : A → A) where
  -- a row that is found, after an update of other rows or of itself
  pub find_by-update_other :
      (xs : List A) (a : A)
      → ((x : A) → test (f x) ≡ test x)
      → find_by test xs ≡ some a
      → find_by test (update_by other f xs) ≡ some (if other a then f a else a)
  unfolding find_by update_by
  find_by-update_other [] a keeps h = cc
  find_by-update_other (x ∷ xs) a keeps h = elim (Bool-cases (test x)) [
    | inr e ↦ ground (arith, e, keeps x, find_by-update_other xs a keeps (rw e at h))
    | inl e ↦
        (let h' : some x ≡ some a = rw e at h in
          let s : x ≡ a = cc in
          let kept : test (if other x then f x else x) ≡ true = ground (arith, e, keeps x) in
          rw kept (ap (λ y. some (if other y then f y else y)) s))
  ]
