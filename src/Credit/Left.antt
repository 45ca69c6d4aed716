-- ===== src/Credit/Left.antt =====
-- app/core/credit_refresh.py: what a round of the refresh leaves behind.
use fcam_gateway.Prelude.{
  ℕ, ◌<◌, ◌≡◌, refl, sym, ap, ◌∙◌, subst, true, false, some, List, [], ◌∷◌, arith, elem, ◌==◌,
  Bool-cases, some_inj, inl, inr, ◌⊎◌, none,
}
use fcam_gateway.Models.{ApiKey, Status, Session, find_key, commit, assign}
use fcam_gateway.Credit.{apply_row, apply_result}
use fcam_gateway.Credit.Probe.{Answer, read_answer}
use fcam_gateway.Credit.Schedule.{IsCalendar}
use fcam_gateway.Credit.Refresh.{Setup, is_due, due, apply_one, probe_one_key, refresh_once}
use fcam_gateway.Credit.Round.{one_by_one, refresh_once-one_by_one}
use fcam_gateway.Credit.Overdue.{Rested, Smooth, Touched, apply_one-Touched}

abbrev ids : List ApiKey → List ℕ
ids [] = []
ids (k ∷ ks) = k.id ∷ ids ks

module _ (r : Setup) where
  probe-Touched :
      (k : ApiKey) (s : Session)
      → IsCalendar r.month_start
      → ((id : ℕ) → r.now < r.applied_at id)
      → Smooth r s
      → Touched r k.id s (apply_one r (probe_one_key r k) s)
  unfolding probe_one_key
  probe-Touched k s cal later m = apply_one-Touched r k.id _ s cal (later k.id) m

  one_by_one-Rested :
      (ks : List ApiKey) (s : Session)
      → IsCalendar r.month_start
      → ((id : ℕ) → r.now < r.applied_at id)
      → Smooth r s
      → ((id : ℕ) → Rested r id s ⊎ (elem id (ids ks) ≡ true))
      → (id : ℕ) → Rested r id (one_by_one r ks s)
  unfolding one_by_one
  one_by_one-Rested [] s cal later m h = λ id. elim (h id) [ inl a ↦ a | inr e ↦ λ k f. cc ]
  one_by_one-Rested (k ∷ ks) s cal later m h =
      let t = probe-Touched k s cal later m in
      one_by_one-Rested ks (apply_one r (probe_one_key r k) s) cal later t.smooth (next t)
    where
      next :
          Touched r k.id s (apply_one r (probe_one_key r k) s)
          → (id : ℕ) → Rested r id (apply_one r (probe_one_key r k) s) ⊎ (elem id (ids ks) ≡ true)
      next t id = elim (Bool-cases (id == k.id)) [
        | inl e ↦
            let q : k.id ≡ id = ground (arith, e) in
            inl (subst (λ j. Rested r j (apply_one r (probe_one_key r k) s)) q t.rested)
        | inr d ↦ elim (h id) [
          | inl a ↦ inl (λ x e. a x (sym (t.others id d) ∙ e))
          | inr e ↦ inr (rw d at e)
        ]
      ]

  due_listed :
      (ks : List ApiKey) (id : ℕ)
      → ((k : ApiKey) → find_key id ks ≡ some k → is_due r.now k ≡ false)
        ⊎ (elem id (ids (due r.now ks)) ≡ true)
  unfolding find_key due
  due_listed [] id = inl (λ k e. cc)
  due_listed (k ∷ ks) id =
      let ih = due_listed ks id in
      elim (Bool-cases (k.id == id)) [
        | inl e ↦ elim (Bool-cases (is_due r.now k)) [
          | inl d ↦ let t : (id == k.id) ≡ true = ground (arith, e) in inr (rw (d, t) refl)
          | inr d ↦ inl (λ x f.
              let g : some k ≡ some x = rw e at f in
              subst (λ (y : ApiKey). is_due r.now y ≡ false) (some_inj g) d)
        ]
        | inr e ↦ elim ih [
          | inl a ↦ inl (λ x f. a x (rw e at f))
          | inr m ↦ elim (Bool-cases (is_due r.now k)) [
            | inl d ↦ let t : (id == k.id) ≡ false = ground (arith, e) in inr (rw (d, t) m)
            | inr d ↦ inr (rw d m)
          ]
        ]
      ]

  -- Where the calendar's months are intervals of at most 31 days, commits succeed, and each result
  -- is applied after the moment that the round takes for now: after a round of the refresh, no key is due
  -- at that moment. Every due key was either scheduled for later or taken out of the refresh.
  pub round_rests :
      (s : Session)
      → IsCalendar r.month_start
      → ((id : ℕ) → r.now < r.applied_at id)
      → s.commits ≡ []
      → (id : ℕ) (k : ApiKey) → find_key id (refresh_once r s).tables.keys ≡ some k
      → is_due r.now k ≡ false
  round_rests s cal later m id k e =
      one_by_one-Rested (due r.now s.tables.keys) s cal later m (due_listed s.tables.keys) id k (
        subst (λ (x : Session). find_key id x.tables.keys ≡ some k) (refresh_once-one_by_one r s) e)

  -- A round probes the keys of every provider at Firecrawl's endpoint: the only key of the table, one of
  -- the provider "exa" that is due, is disabled for good where that endpoint answers 401 and the commit succeeds.
  pub exa_key_disabled :
      (k : ApiKey) (s : Session)
      → k.provider ≡ "exa"
      → s.tables.keys ≡ k ∷ []
      → s.commits ≡ []
      → is_due r.now k ≡ true
      → r.decrypts k.ciphertext ≡ true
      → r.answer k.id ≡ Answer.other 401
      → (refresh_once r s).tables.keys
        ≡ record k {
          status = Status.invalid;
          is_active = false;
          next_refresh_at = none;
          cached_remaining_credits = some 0;
        }
          ∷ []
  unfolding one_by_one apply_one probe_one_key find_key commit apply_result apply_row assign
      read_answer due
  exa_key_disabled k s p keys m d dec a =
      let t : (k.id == k.id) ≡ true = ground arith in
      let listed : due r.now s.tables.keys ≡ k ∷ [] = rw (keys, d) refl in
      let result = read_answer (Answer.other 401) (r.answered_at k.id) in
      let probed : probe_one_key r k ≡ (k.id, result) = rw (probe_one_key, dec, a) refl in
      let found : find_key k.id s.tables.keys ≡ some k = rw (keys, t) refl in
      let written = apply_result r.month_start r.config result (r.applied_at k.id) k.id s in
      let applied : apply_one r (k.id, result) s ≡ (commit written).1 =
        rw (apply_one, found) refl in
      let kept : (commit written).1.tables.keys ≡ written.tables.keys = rw (commit, m) refl in
      let row : written.tables.keys
          ≡ record k {
            status = Status.invalid;
            is_active = false;
            next_refresh_at = none;
            cached_remaining_credits = some 0;
          }
            ∷ [] =
        rw (keys, t) refl in
      ap (λ (x : Session). x.tables.keys)
        (refresh_once-one_by_one r s
          ∙ (ap (λ ks. one_by_one r ks s) listed ∙ (ap (λ x. apply_one r x s) probed ∙ applied)))
      ∙ (kept ∙ row)
