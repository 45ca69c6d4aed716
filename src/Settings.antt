-- ===== src/Settings.antt =====
-- app/core/runtime_settings.py: the settings that the console changes while the program runs, and
-- the file that keeps them. An integer that is not positive is 0; floats are those of Floats. The
-- file is read as what `json.loads` makes of it.
pub mod Bounds
pub mod History
pub mod Reads
pub mod Reload
use fcam_gateway.Prelude.{
  ℕ, max, Bool, true, false, ◌&&◌, Option, none, some, if◌then◌else◌, get_or, List, [], ◌∷◌,
}
use fcam_gateway.Floats.{Floats}

-- a name of the file: not there, `null`, a value, or one that `int` or `float` refuses
pub data Entry {ℓ} (A : Type ℓ) : Type ℓ where
  absent null bad : Entry A
  value : A → Entry A

module _ (F : Floats) where
  open F use {Float, of_ℕ, lit, le, lt}

  -- `max(a, b)` and `min(a, b)` of floats: a NaN that stands first stays
  abbrev pub fmax : Float → Float → Float
  fmax a b = if lt a b then b else a

  abbrev pub fmin : Float → Float → Float
  fmin a b = if lt b a then b else a

  -- `RuntimeScheduling`
  pub record Scheduling : Type 0 where
    pub freshness_half_life_seconds : Option ℕ
    pub unknown_credit_baseline : Option Float
    pub credit_workers : Option ℕ
    pub http_connection_pool_enabled : Option Bool
    pub credit_batch_size : Option ℕ
    pub credit_batch_delay_seconds : Option ℕ
    pub credit_refresh_check_interval_seconds : Option ℕ
    pub credit_retry_delay_minutes : Option ℕ
    pub epsilon_greedy : Option Float

  -- what `config.scheduling` gives
  pub record Base : Type 0 where
    pub freshness_half_life_seconds : ℕ
    pub unknown_credit_baseline : Float
    pub epsilon_greedy : Float

  -- `x or y` of floats
  abbrev pub or_else : Float → Float → Float
  or_else x y = if le x (of_ℕ 0) && le (of_ℕ 0) x then y else x

  -- `RuntimeSettings.__init__`, before the file is read
  unfoldable pub init : Base → Option Bool → Scheduling
  init base pooled = record {
    freshness_half_life_seconds = some base.freshness_half_life_seconds;
    unknown_credit_baseline = some base.unknown_credit_baseline;
    credit_workers = none;
    http_connection_pool_enabled = pooled;
    credit_batch_size = none;
    credit_batch_delay_seconds = none;
    credit_refresh_check_interval_seconds = none;
    credit_retry_delay_minutes = none;
    epsilon_greedy = some (or_else base.epsilon_greedy (lit 1 10));
  }

  -- the arguments of `patch_scheduling` but `persist`: the values, and the overrides to clear
  pub record Patch : Type 0 where
    pub values : Scheduling
    pub unset_credit_workers : Bool
    pub clear_http_connection_pool_override : Bool
    pub clear_credit_batch_size : Bool
    pub clear_credit_batch_delay_seconds : Bool
    pub clear_credit_refresh_check_interval_seconds : Bool
    pub clear_credit_retry_delay_minutes : Bool
    pub clear_epsilon_greedy : Bool

  -- one setting: cleared, set as the function has it, or left
  abbrev pub put : {A : Type 0} → Bool → Option A → (A → A) → Option A → Option A
  put true new f old = none
  put false none f old = old
  put false (some a) f old = some (f a)

  abbrev pub unit_interval : Float → Float
  unit_interval x = fmin (fmax x (of_ℕ 0)) (of_ℕ 1)

  abbrev pub at_least : ℕ → ℕ → ℕ
  at_least n v = max v n

  abbrev pub non_negative : Float → Float
  non_negative x = fmax x (of_ℕ 0)

  -- `patch_scheduling`, without the writing of the file
  unfoldable pub patch_scheduling : Patch → Scheduling → Scheduling
  patch_scheduling p s =
      let v = p.values in
      record {
        freshness_half_life_seconds =
            put false v.freshness_half_life_seconds (at_least 1) s.freshness_half_life_seconds;
        unknown_credit_baseline =
            put false v.unknown_credit_baseline non_negative s.unknown_credit_baseline;
        credit_workers = put p.unset_credit_workers v.credit_workers (at_least 1) s.credit_workers;
        http_connection_pool_enabled =
            put p.clear_http_connection_pool_override v.http_connection_pool_enabled (λ b. b)
              s.http_connection_pool_enabled;
        credit_batch_size =
            put p.clear_credit_batch_size v.credit_batch_size (at_least 1) s.credit_batch_size;
        credit_batch_delay_seconds =
            put p.clear_credit_batch_delay_seconds v.credit_batch_delay_seconds (at_least 0)
              s.credit_batch_delay_seconds;
        credit_refresh_check_interval_seconds =
            put p.clear_credit_refresh_check_interval_seconds
              v.credit_refresh_check_interval_seconds (at_least 1)
              s.credit_refresh_check_interval_seconds;
        credit_retry_delay_minutes =
            put p.clear_credit_retry_delay_minutes v.credit_retry_delay_minutes (at_least 1)
              s.credit_retry_delay_minutes;
        epsilon_greedy = put p.clear_epsilon_greedy v.epsilon_greedy unit_interval s.epsilon_greedy;
      }

  -- the `effective_` values; the first argument is the fallback
  unfoldable pub effective_half_life : ℕ → Scheduling → ℕ
  effective_half_life fallback s = get_or s.freshness_half_life_seconds fallback

  unfoldable pub effective_unknown_baseline : Float → Scheduling → Float
  effective_unknown_baseline fallback s = get_or s.unknown_credit_baseline fallback

  unfoldable pub effective_epsilon_greedy : Float → Scheduling → Float
  effective_epsilon_greedy fallback s = unit_interval (get_or s.epsilon_greedy fallback)

  unfoldable pub effective_credit_workers : ℕ → Scheduling → ℕ
  effective_credit_workers fallback s = get_or s.credit_workers fallback

  unfoldable pub effective_http_connection_pool_enabled : Bool → Scheduling → Bool
  effective_http_connection_pool_enabled fallback s = get_or s.http_connection_pool_enabled fallback

  unfoldable pub effective_credit_batch_size : ℕ → Scheduling → ℕ
  effective_credit_batch_size fallback s = at_least 1 (get_or s.credit_batch_size fallback)

  unfoldable pub effective_credit_batch_delay_seconds : ℕ → Scheduling → ℕ
  effective_credit_batch_delay_seconds fallback s =
      at_least 0 (get_or s.credit_batch_delay_seconds fallback)

  unfoldable pub effective_credit_refresh_check_interval_seconds : ℕ → Scheduling → ℕ
  effective_credit_refresh_check_interval_seconds fallback s =
      at_least 1 (get_or s.credit_refresh_check_interval_seconds fallback)

  unfoldable pub effective_credit_retry_delay_minutes : ℕ → Scheduling → ℕ
  effective_credit_retry_delay_minutes fallback s =
      at_least 1 (get_or s.credit_retry_delay_minutes fallback)

  -- the names under `overrides` in the file
  pub record File : Type 0 where
    pub freshness_half_life_seconds : Entry ℕ
    pub unknown_credit_baseline : Entry Float
    pub credit_workers : Entry ℕ
    pub http_connection_pool_enabled : Entry Bool
    pub credit_batch_size : Entry ℕ
    pub credit_batch_delay_seconds : Entry ℕ
    pub credit_refresh_check_interval_seconds : Entry ℕ
    pub credit_retry_delay_minutes : Entry ℕ
    pub epsilon_greedy : Entry Float

  abbrev pub entry : {A : Type 0} → Option A → Entry A
  entry none = absent
  entry (some a) = value a

  -- `_overrides_dict_unlocked`
  unfoldable pub overrides_dict : Scheduling → File
  overrides_dict s = record {
    freshness_half_life_seconds = entry s.freshness_half_life_seconds;
    unknown_credit_baseline = entry s.unknown_credit_baseline;
    credit_workers = entry s.credit_workers;
    http_connection_pool_enabled = entry s.http_connection_pool_enabled;
    credit_batch_size = entry s.credit_batch_size;
    credit_batch_delay_seconds = entry s.credit_batch_delay_seconds;
    credit_refresh_check_interval_seconds = entry s.credit_refresh_check_interval_seconds;
    credit_retry_delay_minutes = entry s.credit_retry_delay_minutes;
    epsilon_greedy = entry s.epsilon_greedy;
  }

  -- the new value of one setting, none where `int` or `float` raises; the flag tells whether
  -- `null` clears it
  abbrev pub take_entry : {A : Type 0} → Bool → (A → A) → Entry A → Option A → Option (Option A)
  take_entry clears f absent old = some old
  take_entry clears f null old = some (if clears then none else old)
  take_entry clears f bad old = none
  take_entry clears f (value a) old = some (some (f a))

  -- an assignment, where the value was read
  abbrev pub assigned : {A : Type 0} → Option A → (A → Scheduling) → Scheduling → Scheduling × Bool
  assigned none set s = (s, false)
  assigned (some a) set s = (set a, true)

  -- the assignments that follow, unless one before them raised
  abbrev pub followed_by : Scheduling × Bool → (Scheduling → Scheduling × Bool) → Scheduling × Bool
  followed_by (s, false) next = (s, false)
  followed_by (s, true) next = next s

  abbrev pub read_half_life : File → Scheduling → Scheduling × Bool
  read_half_life d s =
      assigned
        (take_entry false (at_least 1) d.freshness_half_life_seconds s.freshness_half_life_seconds)
        (λ v. record s { freshness_half_life_seconds = v }) s

  abbrev pub read_baseline : File → Scheduling → Scheduling × Bool
  read_baseline d s =
      assigned (take_entry false non_negative d.unknown_credit_baseline s.unknown_credit_baseline)
        (λ v. record s { unknown_credit_baseline = v }) s

  abbrev pub read_workers : File → Scheduling → Scheduling × Bool
  read_workers d s =
      assigned (take_entry true (at_least 1) d.credit_workers s.credit_workers)
        (λ v. record s { credit_workers = v }) s

  abbrev pub read_pooling : File → Scheduling → Scheduling × Bool
  read_pooling d s =
      assigned
        (take_entry true (λ b. b) d.http_connection_pool_enabled s.http_connection_pool_enabled)
        (λ v. record s { http_connection_pool_enabled = v }) s

  abbrev pub read_batch_size : File → Scheduling → Scheduling × Bool
  read_batch_size d s =
      assigned (take_entry true (at_least 1) d.credit_batch_size s.credit_batch_size)
        (λ v. record s { credit_batch_size = v }) s

  abbrev pub read_batch_delay : File → Scheduling → Scheduling × Bool
  read_batch_delay d s =
      assigned
        (take_entry true (at_least 0) d.credit_batch_delay_seconds s.credit_batch_delay_seconds)
        (λ v. record s { credit_batch_delay_seconds = v }) s

  abbrev pub read_check_interval : File → Scheduling → Scheduling × Bool
  read_check_interval d s =
      assigned
        (take_entry true (at_least 1) d.credit_refresh_check_interval_seconds
          s.credit_refresh_check_interval_seconds)
        (λ v. record s { credit_refresh_check_interval_seconds = v }) s

  abbrev pub read_retry_delay : File → Scheduling → Scheduling × Bool
  read_retry_delay d s =
      assigned
        (take_entry true (at_least 1) d.credit_retry_delay_minutes s.credit_retry_delay_minutes)
        (λ v. record s { credit_retry_delay_minutes = v }) s

  abbrev pub read_epsilon : File → Scheduling → Scheduling × Bool
  read_epsilon d s =
      assigned (take_entry false unit_interval d.epsilon_greedy s.epsilon_greedy)
        (λ v. record s { epsilon_greedy = v }) s

  -- `_load_from_disk` behind the reading of the file; the flag tells that nothing raised
  unfoldable pub load : File → Scheduling → Scheduling × Bool
  load d s =
      let s1 = read_half_life d s in
      let s2 = followed_by s1 (read_baseline d) in
      let s3 = followed_by s2 (read_workers d) in
      let s4 = followed_by s3 (read_pooling d) in
      let s5 = followed_by s4 (read_batch_size d) in
      let s6 = followed_by s5 (read_batch_delay d) in
      let s7 = followed_by s6 (read_check_interval d) in
      let s8 = followed_by s7 (read_retry_delay d) in let s9 = followed_by s8 (read_epsilon d) in s9

  -- the settings with their file, if there is a path, and the outcomes of the writes to come (an
  -- empty list: all succeed)
  pub record Runtime : Type 0 where
    pub scheduling : Scheduling
    pub has_path : Bool
    pub file : Option File
    pub writes : List Bool

  -- `_save_to_disk_unlocked`; the file is replaced as a whole or not at all
  unfoldable pub save_to_disk : Runtime → Runtime
  unfolding overrides_dict
  save_to_disk r =
      let written : Runtime = elim r.writes [
        | [] ↦ record r { file = some (overrides_dict r.scheduling) }
        | outcome ∷ rest ↦ record r {
          file = if outcome then some (overrides_dict r.scheduling) else r.file;
          writes = rest;
        }
      ] in
      if r.has_path then written else r

  -- `patch_scheduling`
  unfoldable pub patch : Patch → Bool → Runtime → Runtime
  unfolding patch_scheduling save_to_disk
  patch p persist r =
      let changed : Runtime = record r { scheduling = patch_scheduling p r.scheduling } in
      if persist then save_to_disk changed else changed

  -- a new process: `RuntimeSettings.__init__` with the file
  unfoldable pub restart : Base → Option Bool → Runtime → Runtime
  unfolding init load
  restart base pooled r =
      let from_file : Scheduling = elim r.file [
        | none ↦ init base pooled
        | some d ↦ (load d (init base pooled)).0
      ] in
      record r { scheduling = if r.has_path then from_file else init base pooled }
