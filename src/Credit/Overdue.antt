-- ===== src/Credit/Overdue.antt =====
-- app/core/credit_refresh.py: what the result of a probe does to the row of its key.
use fcam_gateway.Prelude.{
  ℕ, ◌<◌, ◌≡◌, refl, sym, ap, ◌∙◌, subst, true, false, none, some, List, [], ◌∷◌, arith, ◌==◌,
  if◌then◌else◌, Bool-cases, Option-cases, some_inj, inl, inr,
}
use fcam_gateway.Models.{ApiKey, is_disabled, Session, commit, find_key, assign, assign_key}
use fcam_gateway.Models.Rows.{KeepsId, map_option, find_key-assign}
use fcam_gateway.Credit.{
  Kind, success, decrypt_failed, invalid, cooling, error, FetchResult, apply_row, apply_result,
  next_refresh,
}
use fcam_gateway.Credit.Schedule.{IsCalendar, next_refresh_later}
use fcam_gateway.Credit.Refresh.{
  Setup, is_due, apply_one, reschedule, at_refresh, is_terminal_kind, is_success_kind,
}

module _ (r : Setup) where
  -- the row of a key is not due
  abbrev pub Rested : ℕ → Session → Type 0
  Rested id s = (k : ApiKey) → find_key id s.tables.keys ≡ some k → is_due r.now k ≡ false

  disabled_rests : (k : ApiKey) → is_disabled k ≡ true → is_due r.now k ≡ false
  unfolding is_due
  disabled_rests k h = rw h refl

  later_rests :
      (k : ApiKey) (t : ℕ) → k.next_refresh_at ≡ some t → r.now < t → is_due r.now k ≡ false
  unfolding is_due
  later_rests k t e h = ground (arith, e, h)

  terminal_rests :
      (result : FetchResult) (id n : ℕ) (k : ApiKey)
      → is_terminal_kind result.kind ≡ true
      → is_due r.now (apply_row r.month_start r.config result n (r.applied_at id) k) ≡ false
  unfolding apply_row is_due
  terminal_rests result id n k h = ground (arith, h)

  reschedule_rests :
      (kind : Kind) (x : ApiKey)
      → (is_success_kind kind ≡ true
          → is_disabled x ≡ false
          → (t : ℕ) × (x.next_refresh_at ≡ some t) × (r.now < t))
      → is_due r.now (reschedule r kind x) ≡ false
  unfolding reschedule
  reschedule_rests kind x f = elim (Bool-cases (is_disabled x)) [
    | inl d ↦ rw (reschedule, d) (disabled_rests (at_refresh r none x) d)
    | inr d ↦ elim (Bool-cases (is_success_kind kind)) [
      | inl y ↦ let g = f y d in rw (reschedule, d, y) (later_rests x g.0 g.1 g.2)
      | inr y ↦ rw (reschedule, d, y) (later_rests (at_refresh r _ x) _ refl (omega arith))
    ]
  ]

  scheduled_later :
      (x : ApiKey) (at : ℕ)
      → IsCalendar r.month_start
      → r.now < at
      → is_disabled x ≡ false
      → (t : ℕ) × (next_refresh r.month_start r.config x at ≡ some t) × (r.now < t)
  scheduled_later x at cal h d =
      let n = next_refresh_later r.month_start r.config x at cal in
      elim (Option-cases (next_refresh r.month_start r.config x at)) [
        | inl e ↦ absurd (n.1 d e)
        | inr (t, e) ↦ (t, e, omega (arith, h, n.2 t e))
      ]

  success_later :
      (result : FetchResult) (id n : ℕ) (k : ApiKey)
      → IsCalendar r.month_start
      → r.now < r.applied_at id
      → is_success_kind result.kind ≡ true
      → is_disabled (apply_row r.month_start r.config result n (r.applied_at id) k) ≡ false
      → (t : ℕ) × ((apply_row r.month_start r.config result n (r.applied_at id) k).next_refresh_at
          ≡ some t)
        × (r.now < t)
  unfolding apply_row
  success_later result id n k cal later = go result.kind refl
    where
      x : ApiKey
      x = apply_row r.month_start r.config result n (r.applied_at id) k

      go :
          (kd : Kind)
          → result.kind ≡ kd
          → is_success_kind result.kind ≡ true
          → is_disabled x ≡ false
          → (t : ℕ) × (x.next_refresh_at ≡ some t) × (r.now < t)
      go success e y d =
          let at = r.applied_at id in
          let fresh = record k {
            cached_remaining_credits = some result.remaining_credits;
            cached_plan_credits = some result.plan_credits;
            last_credit_snapshot_id = some n;
            last_credit_check_at = some result.fetched_at;
          } in
          let new = record fresh {
            next_refresh_at = next_refresh r.month_start r.config fresh at;
          } in
          let same : x ≡ new = rw (apply_row, e) refl in
          subst
            (λ (y : ApiKey).
              is_disabled y ≡ false → (t : ℕ) × (y.next_refresh_at ≡ some t) × (r.now < t))
            (sym same) (scheduled_later fresh at cal later) d
      go decrypt_failed e y d = cc (rw e at y)
      go invalid e y d = cc (rw e at y)
      go cooling e y d = cc (rw e at y)
      go error e y d = cc (rw e at y)

  -- commits succeed
  abbrev pub Smooth : Session → Type 0
  Smooth s = s.commits ≡ []

  commit-keys : (s : Session) → Smooth s → (commit s).1.tables.keys ≡ s.tables.keys
  unfolding commit
  commit-keys s h = rw h refl

  commit-Smooth : (s : Session) → Smooth s → Smooth (commit s).1
  unfolding commit
  commit-Smooth s h = rw h refl

  -- what one result does: to the row of its key, and to the others
  pub record Touched (id : ℕ) (s s' : Session) : Type 0 where
    pub smooth : Smooth s'
    pub rested : Rested id s'
    pub others : (j : ℕ) → (j == id) ≡ false → find_key j s'.tables.keys ≡ find_key j s.tables.keys

  -- an assignment with its commit, which leaves the row not due
  touched :
      (id : ℕ) (s u : Session) (f : ApiKey → ApiKey) (k : ApiKey)
      → Smooth u
      → u.tables.keys ≡ assign id f s.tables.keys
      → KeepsId f
      → find_key id s.tables.keys ≡ some k
      → is_due r.now (f k) ≡ false
      → Touched id s (commit u).1
  touched id s u f k smooth keys keeps found rests = record {
    smooth = commit-Smooth u smooth;
    rested = λ k' e.
        let t : (id == id) ≡ true = ground arith in
        let a : find_key id (commit u).1.tables.keys ≡ some (f k) =
          row_at id ∙ rw (t, found) refl in
        let q : f k ≡ k' = some_inj (sym a ∙ e) in
        subst (λ (x : ApiKey). is_due r.now x ≡ false) q rests;
    others = λ j d. let t : (id == j) ≡ false = ground (arith, d) in row_at j ∙ rw t refl;
  }
    where
      row_at :
          (j : ℕ)
          → find_key j (commit u).1.tables.keys ≡ (
              if id == j then map_option f (find_key j s.tables.keys) else find_key j s.tables.keys)
      row_at j =
          ap (find_key j) (commit-keys u smooth ∙ keys) ∙ find_key-assign id j f s.tables.keys keeps

  unchanged : (id : ℕ) (s : Session) → Smooth s → Rested id s → Touched id s s
  unchanged id s m h = record { smooth = m; rested = h; others = λ j d. refl }

  assign-assign :
      (id : ℕ) (f g : ApiKey → ApiKey) (ks : List ApiKey)
      → KeepsId f
      → assign id g (assign id f ks) ≡ assign id (λ k. g (f k)) ks
  unfolding assign
  assign-assign id f g [] h = refl
  assign-assign id f g (k ∷ ks) h =
      let ih = assign-assign id f g ks h in
      elim (Bool-cases (k.id == id)) [
        | inl e ↦ let t : ((f k).id == id) ≡ true = ground (arith, e, h k) in rw (e, t, ih) refl
        | inr e ↦ rw (e, e, ih) refl
      ]

  apply_row-KeepsId :
      (result : FetchResult) (id n : ℕ)
      → KeepsId (apply_row r.month_start r.config result n (r.applied_at id))
  unfolding apply_row
  apply_row-KeepsId result id n k = ground arith

  reschedule-KeepsId : (kind : Kind) → KeepsId (reschedule r kind)
  unfolding reschedule
  reschedule-KeepsId kind k = ground arith

  pub apply_one-Touched :
      (id : ℕ) (result : FetchResult) (s : Session)
      → IsCalendar r.month_start
      → r.now < r.applied_at id
      → Smooth s
      → Touched id s (apply_one r (id, result) s)
  unfolding apply_one apply_result assign_key
  apply_one-Touched id result s cal later smooth = elim (Option-cases (find_key id s.tables.keys)) [
    | inl e ↦ rw (apply_one, e) (unchanged id s smooth (λ k' e'. cc))
    | inr (k, e) ↦ elim (Bool-cases (is_terminal_kind result.kind)) [
      | inl t ↦
          rw (apply_one, e, t)
            (touched id s _ _ k smooth refl (apply_row-KeepsId result id _) e
              (terminal_rests result id _ k t))
      | inr t ↦ elim (Bool-cases (is_disabled k)) [
        | inl d ↦ elim (Option-cases k.next_refresh_at) [
          | inl n ↦
              rw (apply_one, e, t, d, n)
                (unchanged id s smooth (λ k' e'.
                  subst (λ (x : ApiKey). is_due r.now x ≡ false) (some_inj (sym e ∙ e'))
                    (disabled_rests k d)))
          | inr (n, h) ↦
              rw (apply_one, e, t, d, h)
                (touched id s _ (at_refresh r none) k smooth refl (λ x. refl) e
                  (disabled_rests (at_refresh r none k) d))
        ]
        | inr d ↦
            let row =
              apply_row r.month_start r.config result s.tables.next_snapshot_id (r.applied_at id) in
            rw (apply_one, e, t, d)
              (touched id s _ (λ x. reschedule r result.kind (row x)) k smooth
                (assign-assign id row (reschedule r result.kind) s.tables.keys
                  (apply_row-KeepsId result id s.tables.next_snapshot_id))
                (λ x.
                  reschedule-KeepsId result.kind (row x)
                  ∙ apply_row-KeepsId result id s.tables.next_snapshot_id x)
                e
                (reschedule_rests result.kind (row k)
                  (success_later result id s.tables.next_snapshot_id k cal later)))
      ]
    ]
  ]
