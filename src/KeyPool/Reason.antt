-- ===== src/KeyPool/Reason.antt =====
-- `is_4xx_score_failure` of app/core/key_pool.py: which failures lower a key's score. A reason is
-- lower-case ASCII with no space at its ends, which every caller's is.
use fcam_gateway.Prelude.{
  ℕ, ◌≡◌, refl, Bool, true, false, ◌&&◌, ◌||◌, Option, none, some, List, [], ◌∷◌, ◌==◌,
  if◌then◌else◌, map,
}
use fcam_gateway.Prelude.Text.{codes, split, one_of, isdigit, number}
use fcam_gateway.KeyPool.{is_key_attributable}

-- `r in _SCORE_4XX_REASON_TOKENS`
unfoldable pub is_score_reason : List ℕ → Bool
unfolding one_of
is_score_reason = one_of (
    "401" ∷ "402" ∷ "429" ∷ "key_4xx_401" ∷ "key_4xx_402" ∷ "key_4xx_429" ∷ "invalid_key" ∷ "credit"
    ∷ "rate_limit" ∷ [])

-- `for tok in r.replace("-", "_").split("_")`
unfoldable pub any_attributable : List (List ℕ) → Bool
unfolding isdigit number is_key_attributable
any_attributable [] = false
any_attributable (tok ∷ toks) =
    isdigit tok && is_key_attributable (number 0 tok) || any_attributable toks

-- what the reason alone says
unfoldable pub reason_counts : List ℕ → Bool
unfolding is_score_reason any_attributable split
reason_counts [] = false
reason_counts (c ∷ r) =
    is_score_reason (c ∷ r)
    || any_attributable (split b'_' (map (λ x. if x == b'-' then b'_' else x) (c ∷ r)))

unfoldable pub is_4xx_score_failure : List ℕ → Option ℕ → Bool
unfolding reason_counts is_key_attributable
is_4xx_score_failure reason none = reason_counts reason
is_4xx_score_failure reason (some code) =
    if is_key_attributable code then true else if code == 0 then reason_counts reason else false

-- the reasons that the forwarder records without a status never count
timeout_is_free : is_4xx_score_failure (codes "timeout") none ≡ false
unfolding is_4xx_score_failure
timeout_is_free = refl

switch_counts : is_4xx_score_failure (codes "key-4xx-429") none ≡ true
unfolding is_4xx_score_failure
switch_counts = refl
