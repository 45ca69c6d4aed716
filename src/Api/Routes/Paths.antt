-- ===== src/Api/Routes/Paths.antt =====
-- The upstream paths of the routes in app/api, and their targets at the provider "firecrawl".
use fcam_gateway.Prelude.{ℕ, ◌++◌, Option, List, [], ◌∷◌, if◌then◌else◌, drop}
use fcam_gateway.Prelude.Text.{codes, starts}
use fcam_gateway.Api.Pipeline.{Inbound, Method, Target}

-- `_with_query`
unfoldable pub with_query : Inbound → List ℕ → List ℕ
with_query x path = elim x.query [ [] ↦ path | c ∷ cs ↦ path ++ b'?' ∷ c ∷ cs ]

-- `_path_and_query`
unfoldable pub path_and_query : Inbound → List ℕ
unfolding with_query
path_and_query x = with_query x x.path

-- `_upstream_path` of app/api/exa_compat.py
unfoldable pub upstream_path : Inbound → List ℕ
unfolding with_query
upstream_path x =
    let path = if starts (codes "/exa") x.path then drop 4 x.path else x.path in
    with_query x (if starts (codes "/") path then path else b'/' ∷ path)

abbrev pub target : Method → List ℕ → Option (List ℕ) → Target
target method primary fallback = record {
  provider = "firecrawl";
  method = method;
  primary_path = primary;
  fallback_path = fallback;
}
