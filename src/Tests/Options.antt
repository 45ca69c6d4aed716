-- ===== src/Tests/Options.antt =====
-- The settings that are changed while the program runs.
use fcam_gateway.Prelude.{inl, ◌≡◌, refl, true, false, none, some, [], ◌∷◌, arith}
use fcam_gateway.Floats.Exact.{exact}
use fcam_gateway.Settings.{Scheduling, Base, Patch, Runtime, init, patch, restart}
use fcam_gateway.Settings.Bounds.{IsBounded}
use fcam_gateway.Settings.History.{Event, run, settings-IsBounded}
use fcam_gateway.Settings.Reads.{over}
use fcam_gateway.Settings.Reload.{restart-patch}

abbrev a_base : Base exact
a_base = record {
  freshness_half_life_seconds = 21600;
  unknown_credit_baseline = 50;
  epsilon_greedy = 0;
}

abbrev no_values : Scheduling exact
no_values = record {
  freshness_half_life_seconds = none;
  unknown_credit_baseline = none;
  credit_workers = none;
  http_connection_pool_enabled = none;
  credit_batch_size = none;
  credit_batch_delay_seconds = none;
  credit_refresh_check_interval_seconds = none;
  credit_retry_delay_minutes = none;
  epsilon_greedy = none;
}

-- a batch size of 0, and the exploration rate cleared
abbrev a_patch : Patch exact
a_patch = record {
  values = record no_values { credit_batch_size = some 0 };
  unset_credit_workers = false;
  clear_http_connection_pool_override = false;
  clear_credit_batch_size = false;
  clear_credit_batch_delay_seconds = false;
  clear_credit_refresh_check_interval_seconds = false;
  clear_credit_retry_delay_minutes = false;
  clear_epsilon_greedy = true;
}

abbrev a_runtime : Runtime exact
a_runtime = record {
  scheduling = init exact a_base none;
  has_path = true;
  file = none;
  writes = [];
}

settings-IsBounded_example :
    IsBounded exact
      (run exact a_base
        (Event.patches a_patch true ∷ Event.starts none ∷ [])
        (restart exact a_base none a_runtime)).scheduling
settings-IsBounded_example =
    settings-IsBounded exact a_base none (Event.patches a_patch true ∷ Event.starts none ∷ [])
      a_runtime
      (record { half_life = omega arith; baseline = inl refl; epsilon = inl (refl, refl) }) refl

restart-patch_example :
    (restart exact a_base none (patch exact a_patch true a_runtime)).scheduling
    ≡ over exact (patch exact a_patch true a_runtime).scheduling (init exact a_base none)
unfolding init
restart-patch_example = restart-patch exact a_base none a_patch a_runtime refl refl (record {
  half_life = omega arith;
  baseline = inl refl;
  workers = tt;
  batch_size = tt;
  check_interval = tt;
  retry_delay = tt;
  epsilon = inl (refl, refl);
})
