-- ===== src/Forwarder/KeyTest/Alike.antt =====
-- The marks of `test_key` and of `_test_key_exa` in app/core/forwarder.py, compared.
use fcam_gateway.Prelude.{
  ℕ, ◌≡◌, refl, ◌∙◌, ap, Bool, true, false, Option, none, some, [], arith, List, Bool-cases, inl,
  inr, ◌==◌, leb,
}
use fcam_gateway.Prelude.Text.{codes}
use fcam_gateway.Models.{ApiKey, Status, commit, assign_key}
use fcam_gateway.Models.Rows.{find_key-assign, map_option, KeepsId}
use fcam_gateway.Forwarder.{KeyPoolApi, Env, Response}
use fcam_gateway.Forwarder.Outcome.{classify, looks_like_credit_error}
use fcam_gateway.Forwarder.Marks.{W, is_out, row, save, disable_key, record_failure}
use fcam_gateway.Forwarder.KeyTest.{Upstream, is_invalid, judge, judge_exa, cooled, broke}

-- a 429 is never put down to an invalid key
too_many_not_invalid : (r : Response) → r.status ≡ 429 → is_invalid (classify r) ≡ false
unfolding classify looks_like_credit_error
too_many_not_invalid r h = ground arith

-- a key that no mark but a disabling one changes, or none
abbrev pub is_left : Option ApiKey → Bool
is_left none = true
is_left (some key) = is_out key

-- the assignments of `_disable_key`
abbrev pub disabled : ApiKey → ApiKey
disabled k = record k {
  status = Status.invalid;
  is_active = false;
  next_refresh_at = none;
  cached_remaining_credits = some 0;
}

module _ (K : KeyPoolApi) (env : Env) where
  pub row-save :
      (w : W K env) (id : ℕ) (f : ApiKey → ApiKey)
      → KeepsId f
      → w.session.commits ≡ []
      → row K env (save K env w id f).1 id ≡ map_option f (row K env w id)
  unfolding row save commit assign_key
  row-save w id f h c = ground (arith, c, find_key-assign id id f w.session.tables.keys h)

  pub failure_skipped :
      (w : W K env) (id : ℕ) (reason : List ℕ) (status : Option ℕ)
      → is_left (row K env w id) ≡ true
      → record_failure K env w id reason status ≡ w
  unfolding record_failure
  failure_skipped w id reason status h = go (row K env w id) refl h
    where
      go :
          (o : Option ApiKey)
          → row K env w id ≡ o
          → is_left o ≡ true
          → record_failure K env w id reason status ≡ w
      go none e h' = rw (record_failure, e) refl
      go (some key) e h' = rw (record_failure, e, h') refl

  pub disable_key-is_left :
      (w : W K env) (id : ℕ)
      → w.session.commits ≡ []
      → is_left (row K env (disable_key K env w id) id) ≡ true
  unfolding disable_key
  disable_key-is_left w id c =
      ap is_left (row-save w id disabled (λ k. refl) c) ∙ go (row K env w id)
    where
      go : (o : Option ApiKey) → is_left (map_option disabled o) ≡ true
      go none = refl
      go (some key) = refl

  module _ (upstream : Upstream) where
    -- Where commits succeed, `test_key` and `_test_key_exa` mark a key alike for every response,
    -- though the first stops at the first mark that fits and the second goes through them all.
    pub judge_alike :
        (r : Response) (id : ℕ) (w : W K env)
        → w.session.commits ≡ []
        → judge_exa K env upstream r id w ≡ judge K env upstream r id w
    unfolding judge judge_exa broke cooled
    judge_alike r id w c = elim (Bool-cases (r.status == 429)) [
      | inl e ↦
          let i = too_many_not_invalid r (ground arith) in
          let l : leb 500 r.status ≡ false = ground arith in ground (arith, e, i, l)
      | inr e ↦ elim (Bool-cases (is_invalid (classify r))) [
        | inl i ↦
            let s =
              failure_skipped (disable_key K env w id) id (codes "upstream_5xx") (some r.status)
                (disable_key-is_left w id c) in
            ground (arith, e, i, s)
        | inr i ↦ ground (arith, e, i)
      ]
    ]
