-- ===== src/Api/Routes/Other.antt =====
-- app/api/data_plane.py (`/api`), firecrawl_compat.py (`/v1`) and exa_compat.py (`/exa`).
use fcam_gateway.Prelude.{ℕ, ◌++◌, none, some, List}
use fcam_gateway.Prelude.Text.{codes}
use fcam_gateway.Api.Pipeline.{Inbound, get, post, Plan, forwards, begins}
use fcam_gateway.Api.Routes.Paths.{path_and_query, upstream_path, target, with_query}

-- the routes of `/api`, with their fixed upstream paths
abbrev pub api_scrape : Inbound → Plan
api_scrape x = forwards (target post (codes "/v1/scrape") none)

abbrev pub api_crawl : Inbound → Plan
api_crawl x = begins (codes "crawl") none (target post (codes "/v1/crawl") none)

abbrev pub api_crawl_status : Inbound → List ℕ → Plan
api_crawl_status x crawl_id = forwards (target get (codes "/v1/crawl/" ++ crawl_id) none)

abbrev pub api_search : Inbound → Plan
api_search x = forwards (target post (codes "/v1/search") none)

abbrev pub api_agent : Inbound → Plan
api_agent x =
    begins (codes "agent") none (target post (codes "/v2/agent") (some (codes "/v1/agent")))

-- the routes of `/v1`
abbrev pub v1_scrape : Inbound → Plan
v1_scrape x = forwards (target post (path_and_query x) none)

abbrev pub v1_crawl : Inbound → Plan
v1_crawl x = begins (codes "crawl") none (target post (path_and_query x) none)

abbrev pub v1_crawl_status : Inbound → List ℕ → Plan
v1_crawl_status x crawl_id = forwards (target get (path_and_query x) none)

abbrev pub v1_search : Inbound → Plan
v1_search x = forwards (target post (path_and_query x) none)

abbrev pub v1_agent : Inbound → Plan
v1_agent x =
    begins (codes "agent") none
      (target post (with_query x (codes "/v2/agent")) (some (path_and_query x)))

-- the routes of `/exa`
abbrev exa : Inbound → Plan
exa x = forwards (record (target post (upstream_path x) none) { provider = "exa" })

abbrev pub exa_search : Inbound → Plan
exa_search x = exa x

abbrev pub exa_find_similar : Inbound → Plan
exa_find_similar x = exa x

abbrev pub exa_contents : Inbound → Plan
exa_contents x = exa x

abbrev pub exa_answer : Inbound → Plan
exa_answer x = exa x
