-- ===== src/Credit/Refresh.antt =====
-- The rounds of the credit refresh in app/core/credit_refresh.py. The rows stand in the order of their
-- ids. What the credit endpoint answers for a key, and when, are arguments, as are the settings
-- with their runtime values; a session that is opened anew sees what is committed.
use fcam_gateway.Prelude.{
  ℕ, zero, suc, ◌+◌, max, Bool, true, false, ◌&&◌, not, Option, none, some, List, [], ◌∷◌, leb,
  if◌then◌else◌, length, take, drop,
}
use fcam_gateway.Models.{ApiKey, is_disabled, Session, commit, find_key, assign_key}
use fcam_gateway.Credit.{
  Kind, success, decrypt_failed, invalid, cooling, error, FetchResult, RefreshConfig, minutes,
  apply_result,
}
use fcam_gateway.Credit.Probe.{Answer, read_answer}

-- the filter of the due keys
unfoldable pub is_due : ℕ → ApiKey → Bool
is_due now key =
    let is_time : Bool = elim key.next_refresh_at [ none ↦ true | some t ↦ leb t now ] in
    not (is_disabled key) && is_time

unfoldable pub due : ℕ → List ApiKey → List ApiKey
unfolding is_due
due now [] = []
due now (k ∷ ks) = let rest = due now ks in if is_due now k then k ∷ rest else rest

-- `range(0, len(due), batch_size)`, each with its slice; the fuel is the number of keys
unfoldable pub batches {ℓ} : {A : Type ℓ} → ℕ → ℕ → List A → List (List A)
batches zero size l = []
batches (suc n) size [] = []
batches (suc n) size (k ∷ ks) = take size (k ∷ ks) ∷ batches n size (drop size (k ∷ ks))

-- the results that are applied without a look at the row
abbrev pub is_terminal_kind : Kind → Bool
is_terminal_kind success = false
is_terminal_kind decrypt_failed = true
is_terminal_kind invalid = true
is_terminal_kind cooling = false
is_terminal_kind error = false

abbrev pub is_success_kind : Kind → Bool
is_success_kind success = true
is_success_kind decrypt_failed = false
is_success_kind invalid = false
is_success_kind cooling = false
is_success_kind error = false

-- `now`, the settings, the endpoint's answer for a key with its moment, and the moment at which a
-- key's result is applied
pub record Setup : Type 0 where
  pub now : ℕ
  pub config : RefreshConfig
  pub month_start : ℕ → ℕ
  pub batch_size : ℕ
  pub retry_delay_minutes : ℕ
  pub decrypts : List ℕ → Bool
  pub answer : ℕ → Answer
  pub answered_at : ℕ → ℕ
  pub applied_at : ℕ → ℕ

module _ (r : Setup) where
  -- `_probe_one_key`, with the id of its key
  unfoldable pub probe_one_key : ApiKey → ℕ × FetchResult
  unfolding read_answer
  probe_one_key key =
      let failed : FetchResult = record {
        kind = decrypt_failed;
        remaining_credits = 0;
        plan_credits = 0;
        fetched_at = r.now;
      } in
      (
        key.id,
        if r.decrypts key.ciphertext
            then read_answer (r.answer key.id) (r.answered_at key.id)
            else failed,
      )

  abbrev pub at_refresh : Option ℕ → ApiKey → ApiKey
  at_refresh t key = record key { next_refresh_at = t }

  -- `key.next_refresh_at` behind `apply_credit_fetch_result`
  unfoldable pub reschedule : Kind → ApiKey → ApiKey
  reschedule kind key =
      if is_disabled key
      then at_refresh none key
      else if is_success_kind kind
      then key
      else at_refresh (some (r.now + minutes (max r.retry_delay_minutes 1))) key

  -- one result of `_apply_results_serial`
  unfoldable pub apply_one : ℕ × FetchResult → Session → Session
  unfolding apply_result reschedule commit find_key assign_key
  apply_one (id, result) s =
      let applied = apply_result r.month_start r.config result (r.applied_at id) id s in
      elim (find_key id s.tables.keys) [
        | none ↦ s
        | some key ↦
            if is_terminal_kind result.kind
            then (commit applied).1
            else if is_disabled key
            then (elim key.next_refresh_at [
              | none ↦ s
              | some t ↦ (commit (assign_key id (at_refresh none) s)).1
            ])
            else (commit (assign_key id (reschedule result.kind) applied)).1
      ]

  -- `_apply_results_serial`
  unfoldable pub apply_results : List (ℕ × FetchResult) → Session → Session
  unfolding apply_one
  apply_results [] s = s
  apply_results (x ∷ xs) s = apply_results xs (apply_one x s)

  unfoldable pub probe_all : List ApiKey → List (ℕ × FetchResult)
  unfolding probe_one_key
  probe_all [] = []
  probe_all (k ∷ ks) = probe_one_key k ∷ probe_all ks

  -- the loop over the batches
  unfoldable pub run_batches : List (List ApiKey) → Session → Session
  unfolding apply_results probe_all
  run_batches [] s = s
  run_batches (b ∷ bs) s = run_batches bs (apply_results (probe_all b) s)

  -- `_refresh_once`, without the deletion of old snapshots
  unfoldable pub refresh_once : Session → Session
  unfolding due batches run_batches
  refresh_once s =
      let keys = due r.now s.tables.keys in
      run_batches (batches (length keys) (max r.batch_size 1) keys) s
