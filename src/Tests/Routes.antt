-- ===== src/Tests/Routes.antt =====
-- Requests of a client: a crawl that is created and then asked for.
use fcam_gateway.Prelude.{
  ℕ, ◌≡◌, Bool, true, false, Option, none, some, List, [], length, arith, is_some,
}
use fcam_gateway.Prelude.Dict.{empty}
use fcam_gateway.Prelude.Text.{codes}
use fcam_gateway.Models.{Result, ok, err}
use fcam_gateway.Idempotency.{Codec, Settings}
use fcam_gateway.Floats.Exact.{exact}
use fcam_gateway.Forwarder.{KeyPoolApi, Env, Reply}
use fcam_gateway.Forwarder.Shared.{ForwardResult}
use fcam_gateway.Forwarder.PoolApi.{key_pool}
use fcam_gateway.Api.Pipeline.{Inbound, Reader, Gateway, forward_with_fallback, client, run, Step}
use fcam_gateway.Api.Routes.Resources.{crawl, creator_plan}
use fcam_gateway.Concurrency.{current}
use fcam_gateway.Api.Pipeline.{serve}
use fcam_gateway.Api.Leases.{serve-leases}
use fcam_gateway.Tests.Resources.{a_moment}
use fcam_gateway.Api.Created.{target_of}
use fcam_gateway.Tests.Data.{a_schedule, an_env, a_world, response_of}

abbrev the_pool : KeyPoolApi
the_pool = key_pool exact a_schedule

abbrev plain : Codec
plain = record {
  Content = List ℕ;
  Blob = List ℕ;
  size = length;
  pack = λ c. c;
  unpack = λ b. some b;
}

abbrev no_settings : Settings
no_settings = record {
  enabled = true;
  ttl_seconds = 86400;
  max_response_bytes = 100;
  require_on = [];
}

abbrev a_reader : Reader plain
a_reader = record {
  content = λ r. [];
  content_type = λ r. codes "application/json";
  is_empty = λ r. false;
  json_id = λ r. some (codes "j1 ");
}

-- the upstream answers 200
abbrev kind_env : Env
kind_env = record an_env {
  upstream = λ n key. record { elapsed = 1000; reply = Reply.response (response_of 200) };
}

abbrev a_gateway : Gateway the_pool kind_env plain a_reader no_settings
a_gateway = record {
  world = a_world;
  client_buckets = empty;
  client_leases = empty;
  bindings = record { rows = []; outcomes = [] };
  records = record { entries = []; next_id = 1; commits = [] };
}

abbrev an_inbound : Inbound
an_inbound = record { path = []; query = []; idempotency_key = none; digest = λ e. 7 }

abbrev created : Step the_pool kind_env plain a_reader no_settings ForwardResult
created =
    forward_with_fallback the_pool kind_env plain a_reader no_settings
      (target_of (creator_plan crawl an_inbound)) none a_gateway

abbrev a_result : ForwardResult
a_result = record {
  answer = response_of 200;
  upstream_status = some 200;
  api_key_id = some 1;
  retry_count = 0;
  switches = 0;
}

abbrev later : Gateway the_pool kind_env plain a_reader no_settings
later = record a_gateway {
  bindings =
      (run the_pool kind_env plain a_reader no_settings an_inbound (creator_plan crawl an_inbound)
        a_gateway).1.bindings;
}

serve-leases_example :
    let g' =
      (serve the_pool kind_env plain a_reader no_settings a_moment an_inbound
        (creator_plan crawl an_inbound)
        a_gateway).1 in
    (current g'.client_leases 1 ≡ current empty 1) × (current g'.world.leases 1 ≡ current empty 1)
serve-leases_example =
    serve-leases the_pool kind_env plain a_reader no_settings a_moment an_inbound
      (creator_plan crawl an_inbound) a_gateway 1
