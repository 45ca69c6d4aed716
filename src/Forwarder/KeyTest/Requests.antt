-- ===== src/Forwarder/KeyTest/Requests.antt =====
-- The requests that `Forwarder.test_key` of app/core/forwarder.py makes.
use text.Mathlib.Text.{◌==◌ as str_eq}
use fcam_gateway.Prelude.{
  ℕ, zero, suc, ◌≤◌, ◌≡◌, refl, ◌∙◌, ap, not, Option, none, some, [], ◌∷◌, List, ◌==◌, leb, length,
  arith, if-elim, if◌then◌else◌, String,
}
use fcam_gateway.Prelude.Text.{codes}
use fcam_gateway.Models.{ApiKey, Result}
use fcam_gateway.Forwarder.{KeyPoolApi, Env, Response, Reply, timeout, http_error, response}
use fcam_gateway.Forwarder.Outcome.{classify, is_2xx}
use fcam_gateway.Forwarder.Marks.{W, disable_key}
use fcam_gateway.Forwarder.Frame.{
  Frame, Frame-refl, Frame-trans, mark_active-Frame, mark_cooling-Frame, disable_key-Frame,
  disable_decrypt_failed-Frame, record_failure-Frame,
}
use fcam_gateway.Forwarder.Shared.{has_base_url}
use fcam_gateway.Forwarder.KeyTest.{
  Upstream, KeyTestResult, candidates, is_invalid, is_missing, judge, judge_exa, cooled, broke, ask,
  ask_paths, conclude, try_key, provider_of, test_key,
}

-- a list with so many more of one entry in front
abbrev pub repeated : ℕ → ℕ → List ℕ → List ℕ
repeated zero id xs = xs
repeated (suc n) id xs = id ∷ repeated n id xs

repeated-∷ : (n id : ℕ) (xs : List ℕ) → repeated n id (id ∷ xs) ≡ id ∷ repeated n id xs
repeated-∷ zero id xs = refl
repeated-∷ (suc n) id xs = ap (id ∷◌) (repeated-∷ n id xs)

module _ (K : KeyPoolApi) (env : Env) where
  -- so many requests with one key at most, and no lease taken or given back
  pub record Asked (most id : ℕ) (w w' : W K env) : Type 0 where
    pub times : ℕ
    pub at_most : times ≤ most
    pub sent : w'.sent ≡ repeated times id w.sent
    pub leases : w'.leases ≡ w.leases

  Asked-Frame :
      {most id : ℕ} {w u v : W K env} → Asked most id w u → Frame K env u v → Asked most id w v
  Asked-Frame a f = record {
    times = a.times;
    at_most = a.at_most;
    sent = f.sent ∙ a.sent;
    leases = f.leases ∙ a.leases;
  }

  module _ (upstream : Upstream) where
    judge-Frame :
        (r : Response) (id : ℕ) (w : W K env) → Frame K env w (judge K env upstream r id w)
    unfolding judge cooled broke
    judge-Frame r id w = if-elim (Frame K env w) (is_2xx r.status) (mark_active-Frame K env w id) (
        if-elim (Frame K env w) (r.status == 429) (mark_cooling-Frame K env w id _) (
          if-elim (Frame K env w) (is_invalid (classify r)) (disable_key-Frame K env w id) (
            if-elim (Frame K env w) (leb 500 r.status)
              (record_failure-Frame K env w id (codes "upstream_5xx") (some r.status))
              (Frame-refl K env w))))

    cooled-Frame :
        (r : Response) (id : ℕ) {w u : W K env}
        → Frame K env w u
        → Frame K env w (cooled K env upstream r id u)
    unfolding cooled
    cooled-Frame r id {w} {u} f = Frame-trans K env f (mark_cooling-Frame K env u id _)

    disabled-Frame :
        (id : ℕ) {w u : W K env} → Frame K env w u → Frame K env w (disable_key K env u id)
    disabled-Frame id {w} {u} f = Frame-trans K env f (disable_key-Frame K env u id)

    broke-Frame :
        (r : Response) (id : ℕ) {w u : W K env}
        → Frame K env w u
        → Frame K env w (broke K env upstream r id u)
    unfolding broke
    broke-Frame r id {w} {u} f = Frame-trans K env f (record_failure-Frame K env u id _ _)

    judge_exa-Frame :
        (r : Response) (id : ℕ) (w : W K env) → Frame K env w (judge_exa K env upstream r id w)
    unfolding judge_exa
    judge_exa-Frame r id w =
        let f0 = Frame-refl K env w in
        let f1 = if-elim (Frame K env w) (r.status == 429) (cooled-Frame r id f0) f0 in
        let f2 = if-elim (Frame K env w) (is_invalid (classify r)) (disabled-Frame id f1) f1 in
        if-elim (Frame K env w) (is_2xx r.status) (mark_active-Frame K env w id)
          (if-elim (Frame K env w) (leb 500 r.status) (broke-Frame r id f2) f2)

    conclude-Frame :
        (marks : Response → ℕ → W K env → W K env) (id : ℕ) (x : Reply × W K env)
        → ((r : Response) (w : W K env) → Frame K env w (marks r id w))
        → Frame K env x.1 (conclude K env upstream marks id x).1
    unfolding conclude
    conclude-Frame marks id (timeout, w) m = record_failure-Frame K env w id (codes "timeout") none
    conclude-Frame marks id (http_error, w) m =
        record_failure-Frame K env w id (codes "http_error") none
    conclude-Frame marks id (response r, w) m = m r w

    ask-Asked :
        (most : ℕ) (path : String) (key : ApiKey) (w : W K env)
        → Asked (suc most) key.id w (ask K env upstream path key w).1
    unfolding ask
    ask-Asked most path key w = record {
      times = 1;
      at_most = ground arith;
      sent = refl;
      leases = refl;
    }

    -- one request more, in front of the others
    one_more-Asked :
        (most : ℕ) (path : String) (key : ApiKey) (w v : W K env)
        → Asked most key.id (ask K env upstream path key w).1 v
        → Asked (suc most) key.id w v
    unfolding ask
    one_more-Asked most path key w v a = record {
      times = suc a.times;
      at_most = ground (arith, a.at_most);
      sent = a.sent ∙ repeated-∷ a.times key.id w.sent;
      leases = a.leases;
    }

    later-Asked :
        {most id : ℕ} {w : W K env} (r more : Reply × W K env)
        → Asked most id w r.1
        → Asked most id w more.1
        → let p : Reply × W K env = elim r.0 [
          | timeout ↦ r
          | http_error ↦ r
          | response x ↦ if is_missing x.status then more else r
        ] in
          Asked most id w p.1
    later-Asked (timeout, u) more h m = h
    later-Asked (http_error, u) more h m = h
    later-Asked {most} {id} {w} (response x, u) more h m =
        if-elim (λ (p : Reply × W K env). Asked most id w p.1) (is_missing x.status) m h

    ask_paths-Asked :
        (path : String) (rest : List String) (key : ApiKey) (w : W K env)
        → Asked (suc (length rest)) key.id w (ask_paths K env upstream path rest key w).1
    unfolding ask_paths
    ask_paths-Asked path [] key w = ask-Asked zero path key w
    ask_paths-Asked path (next ∷ rest) key w =
        let x = ask K env upstream path key w in
        let more = ask_paths K env upstream next rest key x.1 in
        later-Asked x more (ask-Asked (suc (length rest)) path key w)
          (one_more-Asked (suc (length rest)) path key w more.1 (ask_paths-Asked next rest key x.1))

    abbrev Ends : ℕ → ℕ → W K env → Result KeyTestResult × W K env → Type 0
    Ends most id w p = Asked most id w p.1

    Frame-Asked : {most id : ℕ} {w u : W K env} → Frame K env w u → Asked most id w u
    Frame-Asked f = record { times = 0; at_most = ground arith; sent = f.sent; leases = f.leases }

    at_most_more : {n most id : ℕ} {w u : W K env} → n ≤ most → Asked n id w u → Asked most id w u
    at_most_more h a = record {
      times = a.times;
      at_most = ground (arith, h, a.at_most);
      sent = a.sent;
      leases = a.leases;
    }

    try_key-Asked :
        (provider : String) (paths : String × List String)
        (marks : Response → ℕ → W K env → W K env) (key : ApiKey) (w : W K env)
        → ((r : Response) (w : W K env) → Frame K env w (marks r key.id w))
        → length paths.1 ≤ 1
        → Ends 2 key.id w (try_key K env upstream provider paths marks key w)
    unfolding try_key
    try_key-Asked provider paths marks key w m h =
        let x = ask_paths K env upstream paths.0 paths.1 key w in
        if-elim (Ends 2 key.id w) (not (env.decrypts key.ciphertext))
          (Frame-Asked (disable_decrypt_failed-Frame K env w key.id))
          (if-elim (Ends 2 key.id w) (not (has_base_url env.config provider))
            (Frame-Asked (Frame-refl K env w))
            (Asked-Frame (at_most_more (ground (arith, h)) (ask_paths-Asked paths.0 paths.1 key w))
              (conclude-Frame marks key.id x m)))

    candidates-length : (version : Option String) → length (candidates version).1 ≤ 1
    unfolding candidates
    candidates-length none = ground arith
    candidates-length (some version) =
        if-elim (λ (p : String × List String). length p.1 ≤ 1) (str_eq version "v1") (ground arith)
          (ground arith)

    -- A test of a key takes no lease and gives none back, and makes two requests at most, with that
    -- key and no other.
    pub tested-Asked :
        (version : Option String) (mode : String) (key : ApiKey) (w : W K env)
        → Asked 2 key.id w (test_key K env upstream version mode key w).1
    unfolding test_key
    tested-Asked version mode key w =
        if-elim (Ends 2 key.id w) (not env.has_master_key) (Frame-Asked (Frame-refl K env w)) (
          if-elim (Ends 2 key.id w) (not (str_eq mode "scrape")) (Frame-Asked (Frame-refl K env w))
            (if-elim (Ends 2 key.id w) (str_eq (provider_of key) "exa")
              (try_key-Asked (provider_of key) ("/search", []) (judge_exa K env upstream) key w
                (λ r u. judge_exa-Frame r key.id u) (ground arith))
              (try_key-Asked (provider_of key) (candidates version) (judge K env upstream) key w
                (λ r u. judge-Frame r key.id u) (candidates-length version))))
