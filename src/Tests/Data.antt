-- ===== src/Tests/Data.antt =====
-- Rows, settings and a world for the tests.
use fcam_gateway.Prelude.{◌-◌, ℕ, ◌*◌, ◌/◌, true, none, some, [], ◌∷◌, ◌==◌, if◌then◌else◌}
use fcam_gateway.Prelude.Dict.{empty}
use fcam_gateway.Floats.Exact.{exact}
use fcam_gateway.Models.{ApiKey, Client, Status, Session, Tables}
use fcam_gateway.Credit.{RefreshConfig, days}
use fcam_gateway.Credit.Probe.{refused}
use fcam_gateway.KeyPool.{Scheduling}
use fcam_gateway.KeyPool.Select.{Pool}
use fcam_gateway.Forwarder.{Config, Env, Header, Response, Reply, World}
use fcam_gateway.Forwarder.Pinned.{tick}
use fcam_gateway.Forwarder.PoolApi.{State}
use fcam_gateway.Forwarder.Shared.{Request}

abbrev pub new_key : ℕ → ApiKey
new_key n = record {
  id = n;
  ciphertext = n ∷ [];
  provider = "firecrawl";
  is_active = true;
  status = Status.active;
  max_concurrent = 2;
  rate_limit_per_min = 60;
  cooldown_until = none;
  total_requests = 0;
  last_used_at = none;
  last_credit_snapshot_id = none;
  last_credit_check_at = none;
  cached_remaining_credits = some (100 * n);
  cached_plan_credits = some 1000;
  next_refresh_at = none;
}

abbrev pub a_client : Client
a_client = record {
  id = 1;
  is_active = true;
  daily_quota = none;
  daily_usage = 0;
  quota_reset_at = none;
  rate_limit_per_min = 60;
  max_concurrent = 2;
  max_retries = none;
  last_used_at = none;
}

abbrev pub a_session : Session
a_session =
    let t : Tables = record {
      keys = new_key 1 ∷ new_key 2 ∷ [];
      client = a_client;
      snapshots = [];
      next_snapshot_id = 1;
    } in
    record { tables = t; saved = t; commits = [] }

abbrev pub a_refresh : RefreshConfig
a_refresh = record {
  smart_enabled = true;
  high_usage_interval = 15;
  medium_usage_interval = 30;
  normal_usage_interval = 60;
  low_usage_interval = 120;
  abundant_remaining_threshold = 1000;
  abundant_min_interval_minutes = 120;
  fixed_interval = 60;
}

abbrev pub a_schedule : Scheduling exact
a_schedule = record {
  half_life = 21600;
  unknown_baseline = 50;
  epsilon = 0;
  near_ratio = 1;
  fail_half = 300;
  fail_unit = 1;
}

abbrev pub a_config : Config
a_config = record {
  max_retries = 2;
  other_providers = λ p. none;
  cooldown_seconds = 60;
  failure_threshold = 3;
  failure_window_seconds = 60;
  failed_cooldown_seconds = 120;
  count_success = true;
  estimation = true;
  refresh = a_refresh;
}

-- a calendar of months of 30 days
abbrev pub month : ℕ
month = days 30

abbrev pub month_start : ℕ → ℕ
month_start t = t / month * month

abbrev pub response_of : ℕ → Response
response_of status = record {
  status = status;
  body = [];
  retry_after = Header.missing;
  reported = none;
}

-- the upstream answers 429 to key 1, and 200 to any other
abbrev pub an_env : Env
an_env = record {
  config = a_config;
  has_master_key = true;
  upstream = λ n key. record {
    elapsed = 1000;
    reply = Reply.response (response_of (if key.id == 1 then 429 else 200));
  };
  probe = λ n. refused;
  decrypts = λ c. true;
  month_start = month_start;
  stores_cooldown = true;
  ttl = λ until now. (until - now) / 1000000;
}

abbrev pub a_pool : Pool exact tick
a_pool = record { penalties = empty; cursors = λ p. 0 }

abbrev pub a_world : World (State exact a_schedule)
a_world = record {
  session = a_session;
  pool = record { pool = a_pool; draws = λ n. (0, 0); calls = 0 };
  buckets = empty;
  leases = empty;
  failures = empty;
  debounce = empty;
  cooldowns = empty;
  clock = 1000000000;
  sent = [];
  probes = 0;
}

abbrev pub a_request : Request
a_request = record { provider = "firecrawl"; path = []; is_get = true; max_retries = none }
