-- ===== src/Settings/History.antt =====
-- app/core/runtime_settings.py over any history: patches, changes of the file, new processes.
use fcam_gateway.Prelude.{
  ◌≤◌, ◌≡◌, refl, ◌&&◌, Bool, true, false, Option, none, some, List, [], ◌∷◌, if◌then◌else◌,
  if-elim, inl,
}
use fcam_gateway.Floats.{Floats}
use fcam_gateway.Settings.{
  Scheduling, Base, Patch, File, Runtime, init, patch_scheduling, load, save_to_disk, patch,
  restart, overrides_dict,
}
use fcam_gateway.Settings.Bounds.{
  InUnit, IsNonNegative, IsBounded, patch_scheduling-IsBounded, load-IsBounded,
}

module _ (F : Floats) where
  open F use {Float, of_ℕ, lit, le, lit_nonneg}

  -- a configuration within the bounds
  pub record IsValid (base : Base F) : Type 0 where
    pub half_life : 1 ≤ base.freshness_half_life_seconds
    pub baseline : IsNonNegative F base.unknown_credit_baseline
    pub epsilon : InUnit F base.epsilon_greedy

  init-IsBounded :
      (base : Base F) (pooled : Option Bool)
      → IsValid base
      → le (lit 1 10) (of_ℕ 1) ≡ true
      → IsBounded F (init F base pooled)
  unfolding init
  init-IsBounded base pooled v tenth = record {
    half_life = v.half_life;
    baseline = v.baseline;
    workers = tt;
    batch_size = tt;
    check_interval = tt;
    retry_delay = tt;
    epsilon =
        if-elim (InUnit F) (le base.epsilon_greedy (of_ℕ 0) && le (of_ℕ 0) base.epsilon_greedy)
          (inl (lit_nonneg 1 10, tenth)) v.epsilon;
  }

  save_to_disk-scheduling : (r : Runtime F) → (save_to_disk F r).scheduling ≡ r.scheduling
  unfolding save_to_disk
  save_to_disk-scheduling r = go r.has_path r.writes
    where
      go :
          (b : Bool) (w : List Bool)
          → (if b
              then (elim w as (λ x. Runtime F) [
                | [] ↦ record r { file = some (overrides_dict F r.scheduling) }
                | outcome ∷ rest ↦ record r {
                  file = if outcome then some (overrides_dict F r.scheduling) else r.file;
                  writes = rest;
                }
              ])
              else r).scheduling
            ≡ r.scheduling
      go false w = refl
      go true [] = refl
      go true (x ∷ xs) = refl

  -- what happens to the settings: the console patches them, the file is changed by hand, or the
  -- program starts anew
  pub data Event : Type 0 where
    patches : (p : Patch F) (persist : Bool) → Event
    edits : Option (File F) → Event
    starts : (pooled : Option Bool) → Event

  pub step : Base F → Event → Runtime F → Runtime F
  step base (patches p persist) r = patch F p persist r
  step base (edits d) r = record r { file = d }
  step base (starts pooled) r = restart F base pooled r

  pub run : Base F → List Event → Runtime F → Runtime F
  run base [] r = r
  run base (e ∷ es) r = run base es (step base e r)

  restart-IsBounded :
      (base : Base F) (pooled : Option Bool) (r : Runtime F)
      → IsBounded F (init F base pooled)
      → IsBounded F (restart F base pooled r).scheduling
  unfolding restart
  restart-IsBounded base pooled r b = if-elim (IsBounded F) r.has_path (go r.file) b
    where
      go :
          (o : Option (File F))
          → IsBounded F (elim o as (λ x. Scheduling F) [
            | none ↦ init F base pooled
            | some d ↦ (load F d (init F base pooled)).0
          ])
      go none = b
      go (some d) = load-IsBounded F d (init F base pooled) b

  step-IsBounded :
      (base : Base F) (e : Event) (r : Runtime F)
      → IsValid base
      → le (lit 1 10) (of_ℕ 1) ≡ true
      → IsBounded F r.scheduling
      → IsBounded F (step base e r).scheduling
  unfolding step patch
  step-IsBounded base (patches p true) r v t b =
      rw (save_to_disk-scheduling (record r { scheduling = patch_scheduling F p r.scheduling }))
        (patch_scheduling-IsBounded F p r.scheduling b)
  step-IsBounded base (patches p false) r v t b = patch_scheduling-IsBounded F p r.scheduling b
  step-IsBounded base (edits d) r v t b = b
  step-IsBounded base (starts pooled) r v t b =
      restart-IsBounded base pooled r (init-IsBounded base pooled v t)

  run-IsBounded :
      (base : Base F) (es : List Event) (r : Runtime F)
      → IsValid base
      → le (lit 1 10) (of_ℕ 1) ≡ true
      → IsBounded F r.scheduling
      → IsBounded F (run base es r).scheduling
  unfolding run
  run-IsBounded base [] r v t b = b
  run-IsBounded base (e ∷ es) r v t b = run-IsBounded base es _ v t (step-IsBounded base e r v t b)

  -- Where the configured scheduling is within its bounds, and the literal 0.1 is at most 1:
  -- whatever the console sends, whatever stands in the file, whichever writes fail and however often
  -- the program starts anew, every override stays within its bounds from the first start on, but
  -- that a float may be NaN, which the clamps let through.
  pub settings-IsBounded :
      (base : Base F) (pooled : Option Bool) (es : List Event) (r : Runtime F)
      → IsValid base
      → le (lit 1 10) (of_ℕ 1) ≡ true
      → IsBounded F (run base es (restart F base pooled r)).scheduling
  settings-IsBounded base pooled es r v t =
      run-IsBounded base es _ v t (restart-IsBounded base pooled r (init-IsBounded base pooled v t))
