-- ===== src/Tests/Limits.antt =====
-- The rate limiter and the concurrency manager on short histories.
use fcam_gateway.Prelude.{ℕ, ◌+◌, ◌-◌, ◌*◌, ◌≤◌, ◌≡◌, List, [], ◌∷◌, arith}
use fcam_gateway.Prelude.Dict.{empty}
use fcam_gateway.RateLimit.{Bucket, token, capacity}
use fcam_gateway.RateLimit.History.{admitted, admitted_bound}
use fcam_gateway.Concurrency.{current}
use fcam_gateway.Concurrency.Accounting.{Call, acquires, releases, run, init, held, current-eq-held}

abbrev spent : Bucket
spent = record { tokens = 0; last_refill = 5 }

-- at two a minute and ten ticks to the second, the next token is 30 seconds off
abbrev history : List (ℕ × ℕ)
history = (7, 10) ∷ (8, 11) ∷ (7, 12) ∷ (7, 13) ∷ []

admitted_bound_example :
    admitted 10 7 (λ k. 2) empty history * token 10 ≤ capacity 10 2 + (13 - 10) * 2
admitted_bound_example =
    admitted_bound 10 7 (λ k. 2) history 10 13 (omega arith)
      (omega arith, (omega arith, (omega arith, (omega arith, omega arith))))

-- two leases of key 7, one released twice
abbrev calls : List Call
calls = acquires 7 2 ∷ acquires 7 2 ∷ releases 0 ∷ releases 0 ∷ []

current-eq-held_example : current (run init calls).states 7 ≡ held 7 (run init calls).leases
current-eq-held_example = current-eq-held 7 calls
