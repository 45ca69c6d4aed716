-- ===== src/Api/Routes/Rest.antt =====
-- app/api/firecrawl_v2_compat.py: the routes that need no resource, and the rest of the paths.
use fcam_gateway.Prelude.{none}
use fcam_gateway.Prelude.Text.{codes}
use fcam_gateway.Api.Pipeline.{Inbound, get, post, delete, Plan, forwards}
use fcam_gateway.Api.Routes.Paths.{with_query, path_and_query, target}

abbrev pub scrape : Inbound → Plan
scrape x = forwards (target post (with_query x (codes "/v2/scrape")) none)

abbrev pub search : Inbound → Plan
search x = forwards (target post (with_query x (codes "/v2/search")) none)

abbrev pub map_urls : Inbound → Plan
map_urls x = forwards (target post (with_query x (codes "/v2/map")) none)

abbrev pub team_credit_usage : Inbound → Plan
team_credit_usage x = forwards (target get (with_query x (codes "/v2/team/credit-usage")) none)

abbrev pub team_queue_status : Inbound → Plan
team_queue_status x = forwards (target get (with_query x (codes "/v2/team/queue-status")) none)

abbrev pub team_credit_usage_historical : Inbound → Plan
team_credit_usage_historical x =
    forwards (target get (with_query x (codes "/v2/team/credit-usage/historical")) none)

abbrev pub team_token_usage : Inbound → Plan
team_token_usage x = forwards (target get (with_query x (codes "/v2/team/token-usage")) none)

abbrev pub team_token_usage_historical : Inbound → Plan
team_token_usage_historical x =
    forwards (target get (with_query x (codes "/v2/team/token-usage/historical")) none)

abbrev pub passthrough_get : Inbound → Plan
passthrough_get x = forwards (target get (path_and_query x) none)

abbrev pub passthrough_post : Inbound → Plan
passthrough_post x = forwards (target post (path_and_query x) none)

abbrev pub passthrough_delete : Inbound → Plan
passthrough_delete x = forwards (target delete (path_and_query x) none)
