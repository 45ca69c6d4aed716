-- ===== src/Forwarder/Frame.antt =====
-- What the marks of app/core/forwarder.py leave alone: the leases, and the record of requests.
use fcam_gateway.Prelude.{ℕ, ◌≡◌, refl, ◌∙◌, Option, List, arith}
use fcam_gateway.Models.{ApiKey}
use fcam_gateway.Forwarder.{KeyPoolApi, Env, Response}
use fcam_gateway.Forwarder.Marks.{
  W, save, set_cooldown, mark_active, mark_cooling, disable_key, disable_decrypt_failed,
  no_credits_left, record_failure, refresh_on_4xx, consume_quota,
}
use fcam_gateway.Forwarder.Shared.{Request, settle, on_success}

module _ (K : KeyPoolApi) (env : Env) where
  pub record Frame (w w' : W K env) : Type 0 where
    pub leases : w'.leases ≡ w.leases
    pub sent : w'.sent ≡ w.sent

  pub Frame-refl : (w : W K env) → Frame w w
  Frame-refl w = record { leases = refl; sent = refl }

  pub Frame-trans : {u v w : W K env} → Frame u v → Frame v w → Frame u w
  Frame-trans f g = record { leases = g.leases ∙ f.leases; sent = g.sent ∙ f.sent }

  save-Frame : (w : W K env) (id : ℕ) (f : ApiKey → ApiKey) → Frame w (save K env w id f).1
  unfolding save
  save-Frame w id f = record { leases = refl; sent = refl }

  set_cooldown-Frame : (w : W K env) (id n : ℕ) → Frame w (set_cooldown K env w id n)
  unfolding set_cooldown
  set_cooldown-Frame w id n = record { leases = ground arith; sent = ground arith }

  pub mark_cooling-Frame : (w : W K env) (id n : ℕ) → Frame w (mark_cooling K env w id n)
  unfolding mark_cooling save
  mark_cooling-Frame w id n = record { leases = ground arith; sent = ground arith }

  pub mark_active-Frame : (w : W K env) (id : ℕ) → Frame w (mark_active K env w id)
  unfolding mark_active save
  mark_active-Frame w id = record { leases = ground arith; sent = ground arith }

  pub disable_key-Frame : (w : W K env) (id : ℕ) → Frame w (disable_key K env w id)
  unfolding disable_key save
  disable_key-Frame w id = record { leases = refl; sent = refl }

  pub disable_decrypt_failed-Frame :
      (w : W K env) (id : ℕ) → Frame w (disable_decrypt_failed K env w id)
  unfolding disable_decrypt_failed save
  disable_decrypt_failed-Frame w id = record { leases = refl; sent = refl }

  pub no_credits_left-Frame : (w : W K env) (id : ℕ) → Frame w (no_credits_left K env w id)
  unfolding no_credits_left save
  no_credits_left-Frame w id = record { leases = refl; sent = refl }

  pub record_failure-Frame :
      (w : W K env) (id : ℕ) (reason : List ℕ) (status : Option ℕ)
      → Frame w (record_failure K env w id reason status)
  unfolding record_failure save
  record_failure-Frame w id reason status = record { leases = ground arith; sent = ground arith }

  pub refresh_on_4xx-Frame :
      (w : W K env) (id status : ℕ) → Frame w (refresh_on_4xx K env w id status)
  unfolding refresh_on_4xx
  refresh_on_4xx-Frame w id status = record { leases = ground arith; sent = ground arith }

  pub on_success-Frame :
      (w : W K env) (q : Request) (r : Response) (id : ℕ) → Frame w (on_success K env w q r id).1
  unfolding on_success settle consume_quota
  on_success-Frame w q r id = record { leases = ground arith; sent = ground arith }
