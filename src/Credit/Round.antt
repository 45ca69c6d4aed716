-- ===== src/Credit/Round.antt =====
-- app/core/credit_refresh.py: a round of batches is a pass over the due keys, one after the other.
use fcam_gateway.Prelude.{
  ℕ, zero, suc, ◌≤◌, ◌<◌, ◌≡◌, refl, ap, ◌∙◌, max, List, [], ◌∷◌, ◌++◌, arith, length, take, drop,
}
use fcam_gateway.Models.{ApiKey, Session}
use fcam_gateway.Credit.Refresh.{
  Setup, due, batches, apply_one, apply_results, probe_all, probe_one_key, run_batches,
  refresh_once,
}

module _ {ℓ} {A : Type ℓ} where
  abbrev concat : List (List A) → List A
  concat [] = []
  concat (l ∷ ls) = l ++ concat ls

  take-drop : (n : ℕ) (l : List A) → take n l ++ drop n l ≡ l
  take-drop zero l = refl
  take-drop (suc n) [] = refl
  take-drop (suc n) (x ∷ xs) = ap (λ t. x ∷ t) (take-drop n xs)

  length-drop_le : (n : ℕ) (l : List A) → length (drop n l) ≤ length l
  length-drop_le zero l = omega arith
  length-drop_le (suc n) [] = omega arith
  length-drop_le (suc n) (x ∷ xs) = omega (arith, length-drop_le n xs)

  -- the batches hold each key once, in order
  concat-batches : (n size : ℕ) (l : List A) → length l ≤ n → concat (batches n (suc size) l) ≡ l
  unfolding batches
  concat-batches zero size [] h = refl
  concat-batches zero size (x ∷ xs) h = absurd (omega (arith, h))
  concat-batches (suc n) size [] h = refl
  concat-batches (suc n) size (x ∷ xs) h =
      let rest = drop size xs in
      let ih = concat-batches n size rest (omega (arith, h, length-drop_le size xs)) in
      ap (λ t. x ∷ t) (ap (λ t. take size xs ++ t) ih ∙ take-drop size xs)

  whole : (size : ℕ) (l : List A) → 0 < size → concat (batches (length l) size l) ≡ l
  whole zero l h = absurd (omega (arith, h))
  whole (suc n) l h = concat-batches (length l) n l (omega arith)

module _ (r : Setup) where
  -- each key is probed and its result applied, one after the other
  unfoldable pub one_by_one : List ApiKey → Session → Session
  one_by_one [] s = s
  one_by_one (k ∷ ks) s = one_by_one ks (apply_one r (probe_one_key r k) s)

  apply_results-probe_all :
      (ks rest : List ApiKey) (s : Session)
      → one_by_one rest (apply_results r (probe_all r ks) s) ≡ one_by_one (ks ++ rest) s
  unfolding one_by_one apply_results probe_all
  apply_results-probe_all [] rest s = refl
  apply_results-probe_all (k ∷ ks) rest s = apply_results-probe_all ks rest _

  run_batches-one_by_one :
      (bs : List (List ApiKey)) (s : Session) → run_batches r bs s ≡ one_by_one (concat bs) s
  unfolding run_batches one_by_one
  run_batches-one_by_one [] s = refl
  run_batches-one_by_one (b ∷ bs) s =
      run_batches-one_by_one bs _ ∙ apply_results-probe_all b (concat bs) s

  -- Whatever the batch size, and whichever commits fail, a round of the refresh is the same as a
  -- pass over the due keys in which each is probed once and its result applied, one after the
  -- other.
  pub refresh_once-one_by_one :
      (s : Session) → refresh_once r s ≡ one_by_one (due r.now s.tables.keys) s
  unfolding refresh_once
  refresh_once-one_by_one s =
      let keys = due r.now s.tables.keys in
      run_batches-one_by_one (batches (length keys) (max r.batch_size 1) keys) s
      ∙ ap (λ ks. one_by_one ks s) (whole (max r.batch_size 1) keys (omega arith))
