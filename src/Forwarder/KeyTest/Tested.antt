-- ===== src/Forwarder/KeyTest/Tested.antt =====
-- `Forwarder.test_key` of app/core/forwarder.py on a key that is out of use, and the requests it makes.
use text.Mathlib.Text.{◌==◌ as str_eq}
use fcam_gateway.Prelude.{
  ℕ, ◌≡◌, refl, ◌∙◌, ap, subst, sym, true, false, not, Option, none, some, [], ◌∷◌, List, ◌==◌, leb,
  if-elim, if◌then◌else◌, String,
}
use fcam_gateway.Prelude.Text.{codes}
use fcam_gateway.Models.{ApiKey, Status, Result, commit, assign_key}
use fcam_gateway.Models.Rows.{map_option}
use fcam_gateway.Forwarder.{KeyPoolApi, Env, Response, Reply, timeout, http_error, response}
use fcam_gateway.Forwarder.Outcome.{classify, is_2xx, cooldown_for}
use fcam_gateway.Forwarder.Marks.{
  W, is_out, row, save, mark_active, mark_cooling, disable_key, disable_decrypt_failed,
  record_failure,
}
use fcam_gateway.Forwarder.Failures.{out_stays_out}
use fcam_gateway.Forwarder.Shared.{has_base_url}
use fcam_gateway.Forwarder.KeyTest.{
  Upstream, KeyTestResult, candidates, is_invalid, is_missing, judge, judge_exa, cooled, broke, ask,
  ask_paths, conclude, try_key, provider_of, test_key,
}
use fcam_gateway.Forwarder.KeyTest.Alike.{row-save, disabled, judge_alike}

module _ (K : KeyPoolApi) (env : Env) (id : ℕ) where
  -- the row is out of use, and commits succeed
  record Out (w : W K env) : Type 0 where
    out : map_option is_out (row K env w id) ≡ some true
    commits : w.session.commits ≡ []

  unmarked :
      (w : W K env) (cooldown : ℕ) (reason : List ℕ) (status : Option ℕ)
      → Out w
      → (mark_active K env w id ≡ w)
        × (mark_cooling K env w id cooldown ≡ w)
        × (record_failure K env w id reason status ≡ w)
  unmarked w cooldown reason status h = go (row K env w id) refl h.out
    where
      go :
          (o : Option ApiKey)
          → row K env w id ≡ o
          → map_option is_out o ≡ some true
          → (mark_active K env w id ≡ w)
            × (mark_cooling K env w id cooldown ≡ w)
            × (record_failure K env w id reason status ≡ w)
      go none e h' = cc
      go (some key) e h' =
          let o : is_out key ≡ true = cc in out_stays_out K env w id cooldown reason status key e o

  mapped_out :
      (f : ApiKey → ApiKey) (o : Option ApiKey)
      → ((k : ApiKey) → is_out (f k) ≡ true)
      → map_option is_out o ≡ some true
      → map_option is_out (map_option f o) ≡ some true
  mapped_out f none h e = e
  mapped_out f (some k) h e = ap some (h k)

  disable_key-Out : (w : W K env) → Out w → Out (disable_key K env w id)
  unfolding disable_key save commit assign_key
  disable_key-Out w h = record {
    out =
        ap (map_option is_out) (row-save K env w id disabled (λ k. refl) h.commits)
        ∙ mapped_out disabled (row K env w id) (λ k. refl) h.out;
    commits = rw h.commits refl;
  }

  disable_decrypt_failed-Out : (w : W K env) → Out w → Out (disable_decrypt_failed K env w id)
  unfolding disable_decrypt_failed save commit assign_key
  disable_decrypt_failed-Out w h = record {
    out =
        ap (map_option is_out) (row-save K env w id undecrypted (λ k. refl) h.commits)
        ∙ mapped_out undecrypted (row K env w id) (λ k. refl) h.out;
    commits = rw h.commits refl;
  }
    where
      undecrypted : ApiKey → ApiKey
      undecrypted k = record k {
        status = Status.decrypt_failed;
        is_active = false;
        next_refresh_at = none;
      }

  record_failure-Out :
      (w : W K env) (reason : List ℕ) (status : Option ℕ)
      → Out w
      → Out (record_failure K env w id reason status)
  record_failure-Out w reason status h = subst Out (sym (unmarked w 0 reason status h).2) h

  module _ (upstream : Upstream) where
    judge-Out : (r : Response) (w : W K env) → Out w → Out (judge K env upstream r id w)
    unfolding judge cooled broke
    judge-Out r w h =
        let m = unmarked w (cooldown_for r.retry_after env.config.cooldown_seconds) [] none h in
        if-elim Out (is_2xx r.status) (subst Out (sym m.0) h) (
          if-elim Out (r.status == 429) (subst Out (sym m.1) h) (
            if-elim Out (is_invalid (classify r)) (disable_key-Out w h) (
              if-elim Out (leb 500 r.status)
                (record_failure-Out w (codes "upstream_5xx") (some r.status) h) h)))

    judge_exa-Out : (r : Response) (w : W K env) → Out w → Out (judge_exa K env upstream r id w)
    judge_exa-Out r w h =
        subst Out (sym (judge_alike K env upstream r id w h.commits)) (judge-Out r w h)

    conclude-Out :
        (marks : Response → ℕ → W K env → W K env) (x : Reply × W K env)
        → ((r : Response) (w : W K env) → Out w → Out (marks r id w))
        → Out x.1
        → Out (conclude K env upstream marks id x).1
    unfolding conclude
    conclude-Out marks (timeout, w) m h = record_failure-Out w (codes "timeout") none h
    conclude-Out marks (http_error, w) m h = record_failure-Out w (codes "http_error") none h
    conclude-Out marks (response r, w) m h = m r w h

    ask-Out :
        (path : String) (key : ApiKey) (w : W K env) → Out w → Out (ask K env upstream path key w).1
    unfolding ask row
    ask-Out path key w h = record { out = h.out; commits = h.commits }

    later-Out :
        (r more : Reply × W K env)
        → Out r.1
        → Out more.1
        → let p : Reply × W K env = elim r.0 [
          | timeout ↦ r
          | http_error ↦ r
          | response x ↦ if is_missing x.status then more else r
        ] in
          Out p.1
    later-Out (timeout, w) more h m = h
    later-Out (http_error, w) more h m = h
    later-Out (response x, w) more h m =
        if-elim (λ (p : Reply × W K env). Out p.1) (is_missing x.status) m h

    ask_paths-Out :
        (path : String) (rest : List String) (key : ApiKey) (w : W K env)
        → Out w
        → Out (ask_paths K env upstream path rest key w).1
    unfolding ask_paths
    ask_paths-Out path [] key w h = ask-Out path key w h
    ask_paths-Out path (next ∷ rest) key w h =
        let h' = ask-Out path key w h in
        later-Out (ask K env upstream path key w)
          (ask_paths K env upstream next rest key (ask K env upstream path key w).1) h'
          (ask_paths-Out next rest key (ask K env upstream path key w).1 h')

module _ (K : KeyPoolApi) (env : Env) (upstream : Upstream) where
  abbrev Ends : ℕ → Result KeyTestResult × W K env → Type 0
  Ends id p = Out K env id p.1

  try_key-Out :
      (provider : String) (paths : String × List String) (marks : Response → ℕ → W K env → W K env)
      (key : ApiKey) (w : W K env)
      → ((r : Response) (w : W K env) → Out K env key.id w → Out K env key.id (marks r key.id w))
      → Out K env key.id w
      → Out K env key.id (try_key K env upstream provider paths marks key w).1
  unfolding try_key
  try_key-Out provider paths marks key w m h =
      if-elim (Ends key.id) (not (env.decrypts key.ciphertext))
        (disable_decrypt_failed-Out K env key.id w h)
        (if-elim (Ends key.id) (not (has_base_url env.config provider)) h (
          conclude-Out K env key.id upstream marks (ask_paths K env upstream paths.0 paths.1 key w)
            m (ask_paths-Out K env key.id upstream paths.0 paths.1 key w h)))

  test_key-Out :
      (version : Option String) (mode : String) (key : ApiKey) (w : W K env)
      → Out K env key.id w
      → Out K env key.id (test_key K env upstream version mode key w).1
  unfolding test_key
  test_key-Out version mode key w h = if-elim (Ends key.id) (not env.has_master_key) h (
      if-elim (Ends key.id) (not (str_eq mode "scrape")) h (
        if-elim (Ends key.id) (str_eq (provider_of key) "exa")
          (try_key-Out (provider_of key) ("/search", []) (judge_exa K env upstream) key w
            (judge_exa-Out K env key.id upstream) h)
          (try_key-Out (provider_of key) (candidates version) (judge K env upstream) key w
            (judge-Out K env key.id upstream) h)))

  -- Where commits succeed, a key that is inactive or disabled is inactive or disabled after a test,
  -- whatever the upstream answers, a 2xx included.
  pub tested_stays_out :
      (version : Option String) (mode : String) (key row_before : ApiKey) (w : W K env)
      → w.session.commits ≡ []
      → row K env w key.id ≡ some row_before
      → is_out row_before ≡ true
      → map_option is_out (row K env (test_key K env upstream version mode key w).1 key.id)
        ≡ some true
  tested_stays_out version mode key row_before w c r o =
      (test_key-Out version mode key w
        (record { out = ap (map_option is_out) r ∙ ap some o; commits = c })).out
