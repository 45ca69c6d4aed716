-- ===== src/Estimator/Costs.antt =====
-- The estimate of app/core/credit_estimator.py.
use fcam_gateway.Prelude.{
  ℕ, ◌≤◌, ◌≡◌, refl, Option, none, some, List, [], ◌∷◌, String, arith, get_or, All, Bool-cases, inl,
  inr,
}
use fcam_gateway.Prelude.Text.{codes, same, contains}
use fcam_gateway.Estimator.{
  cost_table, table_cost, Reported, reported_cost, estimate_credit_cost, normalize_endpoint,
}

table_cost_pos :
    (table : List (String × ℕ)) (endpoint : List ℕ)
    → All (λ row. 1 ≤ row.1) table
    → 1 ≤ get_or (table_cost table endpoint) 1
unfolding table_cost
table_cost_pos [] endpoint a = omega arith
table_cost_pos ((name, cost) ∷ rest) endpoint a = elim (Bool-cases (same (codes name) endpoint)) [
  | inl h ↦ rw h a.0
  | inr h ↦ rw h (table_cost_pos rest endpoint a.1)
]

reported_cost_pos :
    (endpoint : List ℕ) (base : ℕ) (r : Reported) → 1 ≤ base → 1 ≤ reported_cost endpoint base r
unfolding reported_cost
reported_cost_pos endpoint base r h = elim (Bool-cases (contains (codes "/crawl") endpoint)) [
  | inl c ↦ rw c (omega arith)
  | inr c ↦ elim (Bool-cases (contains (codes "/batch/") endpoint)) [
    | inl b ↦ rw (c, b) (omega arith)
    | inr b ↦ rw (c, b) h
  ]
]

-- No request is estimated to cost nothing.
pub estimate_pos :
    (endpoint : List ℕ) (reported : Option Reported) → 1 ≤ estimate_credit_cost endpoint reported
unfolding estimate_credit_cost
estimate_pos endpoint none = table_cost_pos cost_table endpoint (omega arith)
estimate_pos endpoint (some r) =
    reported_cost_pos endpoint _ r (table_cost_pos cost_table endpoint (omega arith))

crawl_status_path : normalize_endpoint (codes "/v1/crawl/abc123?x=1") ≡ codes "/v1/crawl"
unfolding normalize_endpoint
crawl_status_path = refl

batch_path : normalize_endpoint (codes "/v2/batch/scrape/xyz789") ≡ codes "/v2/batch/scrape"
unfolding normalize_endpoint
batch_path = refl
