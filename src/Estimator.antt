-- ===== src/Estimator.antt =====
-- app/core/credit_estimator.py: the local estimate of what a request costs. Paths are lists of code
-- points; a count that the response does not give, or gives as no number, is `none`.
pub mod Costs
use fcam_gateway.Prelude.{
  ℕ, ◌+◌, ◌-◌, ◌*◌, max, Bool, true, false, ◌&&◌, Option, none, some, List, [], ◌∷◌, String,
  if◌then◌else◌, get_or, length, leb,
}
use fcam_gateway.Prelude.Text.{codes, same, contains, split, join}

-- `CREDIT_COST_MAP`
abbrev pub cost_table : List (String × ℕ)
cost_table =
    ("/v1/scrape", 1)
    ∷ ("/v1/crawl", 5)
    ∷ ("/v1/search", 1)
    ∷ ("/v1/map", 1)
    ∷ ("/v2/scrape", 1)
    ∷ ("/v2/crawl", 5)
    ∷ ("/v2/map", 1)
    ∷ ("/v2/extract", 2)
    ∷ ("/v2/batch/scrape", 1)
    ∷ []

unfoldable pub table_cost : List (String × ℕ) → List ℕ → Option ℕ
table_cost [] endpoint = none
table_cost ((name, cost) ∷ rest) endpoint =
    if same (codes name) endpoint then some cost else table_cost rest endpoint

-- `data.total` and `data.count` of a JSON response
pub record Reported : Type 0 where
  pub total : Option ℕ
  pub count : Option ℕ

-- `max(base_cost, max(pages_i, 1))` and `max(base_cost * max(count_i, 1), 1)`
unfoldable pub reported_cost : List ℕ → ℕ → Reported → ℕ
reported_cost endpoint base r =
    if contains (codes "/crawl") endpoint
    then max base (max (get_or r.total 1) 1)
    else if contains (codes "/batch/") endpoint
    then max (base * max (get_or r.count 1) 1) 1
    else base

-- `estimate_credit_cost`
unfoldable pub estimate_credit_cost : List ℕ → Option Reported → ℕ
unfolding table_cost reported_cost
estimate_credit_cost endpoint none = get_or (table_cost cost_table endpoint) 1
estimate_credit_cost endpoint (some r) =
    reported_cost endpoint (get_or (table_cost cost_table endpoint) 1) r

abbrev first : List (List ℕ) → List ℕ
first [] = []
first (p ∷ ps) = p

-- `parts` of a path: `["", "v1", "crawl", "<id>"]`
unfoldable pub shorten : List (List ℕ) → List ℕ → List ℕ
unfolding join
shorten (a ∷ b ∷ c ∷ d ∷ []) path =
    if same (codes "crawl") c then join b'/' (a ∷ b ∷ c ∷ []) else path
shorten (a ∷ b ∷ c ∷ d ∷ e ∷ rest) path =
    if same (codes "crawl") c
    then join b'/' (a ∷ b ∷ c ∷ [])
    else if same (codes "batch") c
    then join b'/' (a ∷ b ∷ c ∷ d ∷ [])
    else path
shorten _ path = path

-- `normalize_endpoint`; the tests for an empty path and for "/" change nothing, since these have
-- fewer than four parts
unfoldable pub normalize_endpoint : List ℕ → List ℕ
unfolding split shorten
normalize_endpoint path = let bare = first (split b'?' path) in shorten (split b'/' bare) bare
