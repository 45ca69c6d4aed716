-- ===== src/KeyPool/Select.antt =====
-- `KeyPool.select` of app/core/key_pool.py: every key is judged, the verdicts are counted, and a
-- candidate is chosen or an error raised.
use text.Mathlib.Text.{◌==◌ as str_eq}
use fcam_gateway.Prelude.{
  ℕ, ◌+◌, ◌%◌, Bool, true, false, ◌&&◌, ◌||◌, not, Option, none, some, ◌==◌, ltb, if◌then◌else◌,
  List, [], ◌∷◌, length, String,
}
use fcam_gateway.Floats.{Floats}
use fcam_gateway.Models.{
  ApiKey, is_disabled, Session, commit, assign_key, Result, ok, err, raise, Code,
}
use fcam_gateway.KeyPool.{Penalties, lt, zero_float}
use fcam_gateway.KeyPool.Tally.{no_tally, no_candidate}
use fcam_gateway.KeyPool.Judge.{Around, scan}
use fcam_gateway.KeyPool.Choice.{exploit, explore_at}

-- the rows of one provider
unfoldable pub of_provider : String → List ApiKey → List ApiKey
of_provider provider [] = []
of_provider provider (k ∷ ks) =
    if str_eq k.provider provider then k ∷ of_provider provider ks else of_provider provider ks

unfoldable pub any_active : List ApiKey → Bool
any_active [] = false
any_active (k ∷ ks) = not (is_disabled k) || any_active ks

-- the judged rows, in the session
unfoldable pub put_rows : List ApiKey → Session → Session
unfolding assign_key
put_rows [] s = s
put_rows (k ∷ ks) s = put_rows ks (assign_key k.id (λ _. k) s)

module _ (F : Floats) (second : ℕ) where
  open F use {Float}

  -- whether this call explores
  unfoldable pub explores : Around F second → List (Float × ApiKey) → Bool
  explores a candidates =
      lt F (zero_float F) a.sched.epsilon
      && lt F a.roll a.sched.epsilon
      && ltb 1 (length candidates)

  -- `KeyPool`: the failure memory and the cursor of each provider
  pub record Pool : Type 0 where
    pub penalties : Penalties F
    pub cursors : String → ℕ

  -- `SelectedKey`
  pub record Selected : Type 0 where
    pub api_key : ApiKey
    pub score : Float
    pub explore : Bool

  -- `db.commit()` and the answer; an empty choice is the IndexError, which no caller expects
  unfoldable pub finish :
      Option (Float × ApiKey) → Bool → Pool → Session → Option (Result Selected) × Pool × Session
  unfolding commit
  finish none explored pool s = (none, pool, s)
  finish (some (score, key)) explored pool s =
      let r = commit s in
      (
        (if r.0
            then some (ok (record { api_key = key; score = score; explore = explored }))
            else some (raise 503 Code.db_unavailable)),
        pool,
        r.1,
      )

  -- `KeyPool.select`, where the query of the key rows succeeds
  unfoldable pub select :
      Around F second → String → Pool → Session → Option (Result Selected) × Pool × Session
  unfolding scan of_provider any_active put_rows explores explore_at exploit finish no_candidate
  select a provider pool s =
      let keys = of_provider provider s.tables.keys in
      let found = scan F second a keys no_tally pool.penalties in
      let s' = put_rows found.keys s in
      let pool' = record pool { penalties = found.penalties } in
      let cursor = pool.cursors provider % length found.candidates in
      let turned = record pool' {
        cursors = λ p. if str_eq p provider then cursor + 1 else pool.cursors p;
      } in
      if length keys == 0
      then (some (raise 503 Code.no_key_configured), pool, s)
      else if not (any_active keys)
      then (some (raise 503 Code.all_keys_disabled), pool, s)
      else if length found.candidates == 0
      then (some (err (no_candidate (length keys) found.tally)), pool', s')
      else if explores a found.candidates
      then finish (explore_at F (pool.cursors provider) found.candidates) true turned s'
      else finish (exploit F a.pick a.sched.near_ratio found.candidates) false pool' s'
