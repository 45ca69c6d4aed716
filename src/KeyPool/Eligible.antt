-- ===== src/KeyPool/Eligible.antt =====
-- Which keys `KeyPool.select` of app/core/key_pool.py can hand out.
use fcam_gateway.Prelude.{
  ℕ, ◌-◌, ◌<◌, max, ◌≡◌, ◌≢◌, ◌⊎◌, refl, not, ◌||◌, get_or, is_some, if◌then◌else◌, Bool, true,
  false, Option, none, some, List, [], ◌∷◌, All, arith, elem, Bool-cases, inl, inr, ◌==◌, ltb,
  length, String, subst,
}
use fcam_gateway.Floats.{Floats}
use fcam_gateway.Models.{ApiKey, active, is_disabled, is_terminal, Session, commit, ok}
use fcam_gateway.KeyPool.{Penalties, rpm_allows, cooldown_remaining, is_cooling}
use fcam_gateway.KeyPool.Tally.{
  Verdict, excluded, off, no_credit, rpm_blocked, cooling, candidate, Tally, count, no_tally,
}
use fcam_gateway.KeyPool.Judge.{
  Around, judge, judge_ready, scan, add_candidate, cooling_seconds, reactivate, has_cooldown,
}
use fcam_gateway.KeyPool.Choice.{exploit, explore_at}
use fcam_gateway.KeyPool.Chosen.{exploit-All, explore_at-All}
use fcam_gateway.KeyPool.Select.{Pool, Selected, select, finish, of_provider, any_active, explores}

-- a row of the list
abbrev pub IsAmong : ApiKey → List ApiKey → Type 0
IsAmong k [] = ⊥
IsAmong k (r ∷ rs) = (r ≡ k) ⊎ IsAmong k rs

no_time_left :
    (u o : Option ℕ) (now : ℕ)
    → ltb 0 (elim o as (λ x. ℕ) [
      | none ↦ cooldown_remaining u now
      | some s ↦ max (cooldown_remaining u now) s
    ])
      ≡ false
    → (get_or u 0 - now < 1000000) × ((get_or o 0 == 0) ≡ true)
unfolding cooldown_remaining
no_time_left none none now h = (omega arith, refl)
no_time_left none (some s) now h = (omega arith, ground (arith, h))
no_time_left (some t) none now h = (ground (arith, h), refl)
no_time_left (some t) (some s) now h = (ground (arith, h), ground (arith, h))

no_moment :
    (b : Bool) (u : Option ℕ) (now : ℕ) → b || is_some u ≡ false → get_or u 0 - now < 1000000
no_moment b none now h = omega arith
no_moment b (some t) now h = ground (arith, h)

module _ (F : Floats) (second : ℕ) where
  -- a key that may be sent a request now
  pub record IsUsable (a : Around F second) (key : ApiKey) : Type 0 where
    pub not_tried : elem key.id a.exclude ≡ false
    pub enabled : key.is_active ≡ true
    pub healthy : key.status ≡ active
    pub rested : key.cooldown_until ≡ none
    pub funded : key.cached_remaining_credits ≢ some 0
    pub unhurried : rpm_allows second a.buckets key a.mono ≡ true

  -- the row of a key as it was read: its cooldown had less than a second left, and the cooldown store
  -- knew of none, where it was asked
  pub record IsRested (a : Around F second) (row : ApiKey) : Type 0 where
    pub by_row : get_or row.cooldown_until 0 - a.now < 1000000
    pub by_store : (not (has_cooldown row) || get_or (a.cooldown row.id) 0 == 0) ≡ true

  -- a key that is handed out: a row of the query, rested, with its cooldown cleared
  pub record IsFrom (a : Around F second) (rows : List ApiKey) (key : ApiKey) : Type 0 where
    pub row : ApiKey
    pub among : IsAmong row rows
    pub rested : IsRested a row
    pub cleared : key ≡ (if has_cooldown row then reactivate row else row)

  IsRested-waited :
      (a : Around F second) (row : ApiKey)
      → ltb 0 (cooling_seconds row a.now (a.cooldown row.id)) ≡ false
      → IsRested a row
  unfolding cooling_seconds
  IsRested-waited a row h =
      let r = no_time_left row.cooldown_until (a.cooldown row.id) a.now h in
      record { by_row = r.0; by_store = ground (arith, r.1) }

  IsRested-free : (a : Around F second) (row : ApiKey) → has_cooldown row ≡ false → IsRested a row
  IsRested-free a row h = record {
    by_row = no_moment (is_cooling row.status) row.cooldown_until a.now h;
    by_store = ground (arith, h);
  }

  ready_funded :
      (a : Around F second) (key : ApiKey) (p : Penalties F) (s : F.Float)
      → (judge_ready F second a key p).0 ≡ candidate s
      → (key.cached_remaining_credits ≢ some 0) × (rpm_allows second a.buckets key a.mono ≡ true)
  unfolding judge_ready
  ready_funded a key p s h = ground arith

  enabled_of :
      (key : ApiKey)
      → is_disabled key ≡ false
      → (key.is_active ≡ true) × (is_terminal key.status ≡ false)
  enabled_of key h = ground arith

  IsUsable-reactivated :
      (a : Around F second) (key : ApiKey) (p : Penalties F) (s : F.Float)
      → elem key.id a.exclude ≡ false
      → is_disabled key ≡ false
      → (judge_ready F second a (reactivate key) p).0 ≡ candidate s
      → IsUsable a (reactivate key)
  IsUsable-reactivated a key p s e d h =
      let r = ready_funded a (reactivate key) p s h in
      record {
        not_tried = e;
        enabled = (enabled_of key d).0;
        healthy = ground (arith, enabled_of key d);
        rested = refl;
        funded = r.0;
        unhurried = r.1;
      }

  IsUsable-plain :
      (a : Around F second) (key : ApiKey) (p : Penalties F) (s : F.Float)
      → elem key.id a.exclude ≡ false
      → is_disabled key ≡ false
      → has_cooldown key ≡ false
      → (judge_ready F second a key p).0 ≡ candidate s
      → IsUsable a key
  IsUsable-plain a key p s e d c h =
      let r = ready_funded a key p s h in
      record {
        not_tried = e;
        enabled = (enabled_of key d).0;
        healthy = ground (arith, enabled_of key d);
        rested = ground arith;
        funded = r.0;
        unhurried = r.1;
      }

  -- a judged row, usable and rested
  abbrev Judged : Around F second → ApiKey → ApiKey → Type 0
  Judged a row key =
      IsUsable a key × IsRested a row × (key ≡ (if has_cooldown row then reactivate row else row))

  judge-Judged :
      (a : Around F second) (key : ApiKey) (p : Penalties F) (s : F.Float)
      → (judge F second a key p).0 ≡ candidate s
      → Judged a key (judge F second a key p).1
  unfolding judge
  judge-Judged a key p s h = elim (Bool-cases (elem key.id a.exclude)) [
    | inl e ↦ cc (rw e at h)
    | inr e ↦ elim (Bool-cases (is_disabled key)) [
      | inl d ↦ cc (rw (e, d) at h)
      | inr d ↦ elim (Bool-cases (has_cooldown key)) [
        | inl c ↦ elim (Bool-cases (ltb 0 (cooling_seconds key a.now (a.cooldown key.id)))) [
          | inl l ↦ cc (rw (e, d, c, l) at h)
          | inr l ↦
              let u = IsUsable-reactivated a key p s e d (rw (e, d, c, l) at h) in
              rw (e, d, c, l) (u, IsRested-waited a key l, refl)
        ]
        | inr c ↦
            let u = IsUsable-plain a key p s e d c (rw (e, d, c) at h) in
            rw (e, d, c) (u, IsRested-free a key c, refl)
      ]
    ]
  ]

  abbrev Usable : Around F second → List ApiKey → F.Float × ApiKey → Type 0
  Usable a rows c = IsUsable a c.1 × IsFrom a rows c.1

  judge-Usable :
      (a : Around F second) (key : ApiKey) (keys : List ApiKey) (p : Penalties F) (s : F.Float)
      → (judge F second a key p).0 ≡ candidate s
      → Usable a (key ∷ keys) (s, (judge F second a key p).1)
  judge-Usable a key keys p s h =
      let j = judge-Judged a key p s h in
      (j.0, record { row = key; among = inl refl; rested = j.1; cleared = j.2 })

  more_rows :
      (a : Around F second) (key : ApiKey) (keys : List ApiKey) (cs : List (F.Float × ApiKey))
      → All (Usable a keys) cs
      → All (Usable a (key ∷ keys)) cs
  more_rows a key keys [] u = tt
  more_rows a key keys (c ∷ cs) u =
      let f = u.0.1 in
      (
        (
          u.0.0,
          record { row = f.row; among = inr f.among; rested = f.rested; cleared = f.cleared },
        ),
        more_rows a key keys cs u.1,
      )

  add-Usable :
      (a : Around F second) (rows : List ApiKey) (v : Verdict F.Float) (key : ApiKey)
      (cs : List (F.Float × ApiKey))
      → ((s : F.Float) → v ≡ candidate s → Usable a rows (s, key))
      → All (Usable a rows) cs
      → All (Usable a rows) (add_candidate F second v key cs)
  add-Usable a rows (candidate s) key cs h u = (h s refl, u)
  add-Usable a rows excluded key cs h u = u
  add-Usable a rows off key cs h u = u
  add-Usable a rows no_credit key cs h u = u
  add-Usable a rows rpm_blocked key cs h u = u
  add-Usable a rows (cooling n) key cs h u = u

  scan-Usable :
      (a : Around F second) (keys : List ApiKey) (t : Tally) (p : Penalties F)
      → All (Usable a keys) (scan F second a keys t p).candidates
  unfolding scan
  scan-Usable a [] t p = tt
  scan-Usable a (key ∷ keys) t p =
      let j = judge F second a key p in
      let rest = (scan F second a keys (count j.0 t) j.2).candidates in
      add-Usable a (key ∷ keys) j.0 j.1 rest (λ s e. judge-Usable a key keys p s e)
        (more_rows a key keys rest (scan-Usable a keys (count j.0 t) j.2))

  finish_from :
      (P : F.Float × ApiKey → Type 0) (o : Option (F.Float × ApiKey)) (b : Bool)
      (pool : Pool F second) (s : Session) (sel : Selected F second)
      → ((c : F.Float × ApiKey) → o ≡ some c → P c)
      → (finish F second o b pool s).0 ≡ some (ok sel)
      → P (sel.score, sel.api_key)
  unfolding finish
  finish_from P none b pool s sel h e = cc
  finish_from P (some (score, key)) b pool s sel h e = elim (Bool-cases (commit s).0) [
    | inl k ↦
        let picked : Selected F second = record { api_key = key; score = score; explore = b } in
        let q : picked ≡ sel = cc (rw k at e) in
        subst (λ (x : Selected F second). P (x.score, x.api_key)) q (h (score, key) refl)
    | inr k ↦ cc (rw k at e)
  ]

  -- Whatever is drawn, a selected key has not been tried in this request, is active, not known to
  -- be out of credits, and has a token left in its rate limiter; it is the row of a key of the
  -- provider whose cooldown had less than a second left, by the row and by the cooldown store if it
  -- was asked, and whose cooldown alone has been cleared.
  pub selected-IsUsable :
      (a : Around F second) (provider : String) (pool : Pool F second) (s : Session)
      (sel : Selected F second)
      → (select F second a provider pool s).0 ≡ some (ok sel)
      → IsUsable a sel.api_key × IsFrom a (of_provider provider s.tables.keys) sel.api_key
  unfolding select
  selected-IsUsable a provider pool s sel h =
      let keys = of_provider provider s.tables.keys in
      let found = scan F second a keys no_tally pool.penalties in
      let usable = scan-Usable a keys no_tally pool.penalties in
      elim (Bool-cases (length keys == 0)) [
        | inl e ↦ cc (rw (e, select) at h)
        | inr e ↦ elim (Bool-cases (any_active keys)) [
          | inr i ↦ cc (rw (e, i, select) at h)
          | inl i ↦ elim (Bool-cases (length found.candidates == 0)) [
            | inl z ↦ cc (rw (e, i, z, select) at h)
            | inr z ↦ elim (Bool-cases (explores F second a found.candidates)) [
              | inl x ↦
                  finish_from (Usable a keys)
                    (explore_at F (pool.cursors provider) found.candidates) true _ _ sel
                    (λ c.
                      explore_at-All F (Usable a keys) (pool.cursors provider) found.candidates c
                        usable)
                    (rw (e, i, z, x, select) at h)
              | inr x ↦
                  finish_from (Usable a keys) (exploit F a.pick a.sched.near_ratio found.candidates)
                    false _ _ sel
                    (λ c.
                      exploit-All F (Usable a keys) a.pick a.sched.near_ratio found.candidates c
                        usable)
                    (rw (e, i, z, x, select) at h)
            ]
          ]
        ]
      ]
