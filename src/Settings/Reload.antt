-- ===== src/Settings/Reload.antt =====
-- app/core/runtime_settings.py: what is left of the settings when the program starts anew.
use fcam_gateway.Prelude.{◌≡◌, ap, Bool, true, Option, []}
use fcam_gateway.Floats.{Floats}
use fcam_gateway.Settings.{
  Scheduling, Base, Patch, Runtime, init, patch_scheduling, save_to_disk, patch, restart,
}
use fcam_gateway.Settings.Bounds.{IsBounded, patch_scheduling-IsBounded}
use fcam_gateway.Settings.Reads.{over, load-overrides_dict}

module _ (F : Floats) where
  open F use {Float, of_ℕ, lit, le}

  -- With a path for the file, and where the write succeeds: a patch of settings within their
  -- bounds that is kept, and then a new process. Each override is there again as it was; and where
  -- there is none, the new process starts from its configuration.
  pub restart-patch :
      (base : Base F) (pooled : Option Bool) (p : Patch F) (r : Runtime F)
      → r.has_path ≡ true
      → r.writes ≡ []
      → IsBounded F r.scheduling
      → (restart F base pooled (patch F p true r)).scheduling
        ≡ over F (patch F p true r).scheduling (init F base pooled)
  unfolding restart patch save_to_disk
  restart-patch base pooled p r path ok b =
      let s' = patch_scheduling F p r.scheduling in
      let l =
        load-overrides_dict F s' (patch_scheduling-IsBounded F p r.scheduling b)
          (init F base pooled) in
      rw (ok, path) (ap (λ (x : Scheduling F × Bool). x.0) l)
