-- ===== src/Floats.antt =====
-- Python's floats, which the language has no type for: the operations that app/core/key_pool.py and
-- app/core/runtime_settings.py use, and the facts about them that the proofs rest on. All hold of
-- all IEEE doubles, of infinities and of NaN, which is the one with `le a a` false.
pub mod Exact
use fcam_gateway.Prelude.{ℕ, ◌≤◌, ◌≡◌, Bool, true, false, ◌⊎◌}

pub record Floats : Type 1 where
  pub Float : Type 0
  pub of_ℕ : ℕ → Float
  -- the literal n / d
  pub lit : ℕ → ℕ → Float
  -- a time difference in microseconds, as seconds
  pub seconds : ℕ → Float
  -- a <= b
  pub le : Float → Float → Bool
  -- a < b
  pub lt : Float → Float → Bool
  pub add : Float → Float → Float
  pub mul : Float → Float → Float
  pub div : Float → Float → Float
  pub log1p : Float → Float
  -- 0.5 ** x
  pub half_pow : Float → Float
  pub lt_le : (a b : Float) → lt a b ≡ true → le a b ≡ true
  pub le-not_lt : (a b : Float) → le a b ≡ true → lt b a ≡ false
  pub not_lt-le : (a b : Float) → le a a ≡ true → le b b ≡ true → lt a b ≡ false → le b a ≡ true
  pub nan-not_lt : (a b : Float) → le a a ≡ false → (lt a b ≡ false) × (lt b a ≡ false)
  pub of_ℕ_mono : (m n : ℕ) → m ≤ n → le (of_ℕ m) (of_ℕ n) ≡ true
  pub lit_nonneg : (n d : ℕ) → le (of_ℕ 0) (lit n d) ≡ true
  -- a positive factor of at most 1 does not enlarge
  pub mul-le_left :
      (a b : Float)
      → le (of_ℕ 0) a ≡ true
      → lt (of_ℕ 0) b ≡ true
      → le b (of_ℕ 1) ≡ true
      → le (mul a b) a ≡ true
