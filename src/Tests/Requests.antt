-- ===== src/Tests/Requests.antt =====
-- The forwarder at two keys, one of which the upstream limits.
use fcam_gateway.Prelude.{
  ℕ, ◌+◌, ◌≤◌, ◌≡◌, refl, true, false, none, some, List, [], ◌∷◌, ◌++◌, is_some, length, replicate,
}
use fcam_gateway.Prelude.Dict.{empty, insert}
use fcam_gateway.Prelude.Text.{codes}
use fcam_gateway.Models.{Status}
use fcam_gateway.Concurrency.{current}
use fcam_gateway.Floats.Exact.{exact}
use fcam_gateway.Forwarder.{KeyPoolApi, Header, Response}
use fcam_gateway.Forwarder.Outcome.{retry_budget}
use fcam_gateway.Forwarder.Marks.{W, row}
use fcam_gateway.Forwarder.Shared.{provider_max_retries}
use fcam_gateway.Forwarder.PoolApi.{key_pool}
use fcam_gateway.Forwarder.Forward.{rotate, forward, may_pin}
use fcam_gateway.Forwarder.Requests.{on_top, IsDistinct}
use fcam_gateway.Forwarder.Totals.{pinned_only, forward-leases, rotate-IsDistinct, forward_budget}
use fcam_gateway.Tests.Data.{new_key, a_schedule, an_env, a_world, a_request, response_of}

abbrev pub the_pool : KeyPoolApi
the_pool = key_pool exact a_schedule

pinned_only_example :
    (is_some (forward the_pool an_env a_request (some 1) a_world).0 ≡ true)
    × ((made : ℕ) × (made ≤ 3)
        × ((forward the_pool an_env a_request (some 1) a_world).1.sent ≡ replicate made 1 ++ []))
unfolding retry_budget provider_max_retries row may_pin fcam_gateway.Models.find_key
    fcam_gateway.Forwarder.Shared.has_base_url
pinned_only_example =
    pinned_only the_pool an_env a_request 1 (new_key 1) a_world refl refl refl refl

forward-leases_example :
    current (forward the_pool an_env a_request none a_world).1.leases 1 ≡ current empty 1
forward-leases_example = forward-leases the_pool an_env a_request none a_world 1

rotate-IsDistinct_example :
    (made : List ℕ) × IsDistinct made
    × ((rotate the_pool an_env a_request a_world).1.sent ≡ on_top made [])
rotate-IsDistinct_example = rotate-IsDistinct the_pool an_env a_request a_world

forward_budget_example : length (forward the_pool an_env a_request none a_world).1.sent ≤ 0 + 3
unfolding retry_budget provider_max_retries
forward_budget_example = forward_budget the_pool an_env a_request none a_world

abbrev blocked : Response
blocked = record (response_of 403) { body = codes "website is blocking us" }

abbrev revoked : Response
revoked = record (response_of 502) { body = codes "certificate revoked" }

-- two failures are on record
abbrev failing : W the_pool an_env
failing = record a_world { failures = insert 1 (2, 999999999) empty }

-- key 1 is out
abbrev pub retired : W the_pool an_env
retired = record a_world {
  session = record a_world.session {
    tables = record a_world.session.tables {
      keys = record (new_key 1) { is_active = false; status = Status.invalid } ∷ [];
    };
  };
}
