-- ===== src/Concurrency.antt =====
-- app/core/concurrency.py: the in-memory `ConcurrencyManager` and its leases.
pub mod Accounting
use fcam_gateway.Prelude.{
  ℕ, ◌+◌, ◌-◌, Bool, true, false, Option, none, some, leb, ◌==◌, if◌then◌else◌,
}
use fcam_gateway.Prelude.Dict.{Dict, insert}

-- `_State`
pub record State : Type 0 where
  pub current : ℕ
  pub maximum : ℕ

-- `Lease`: the key that its release function gives back (none for the no-op), and `_released`
pub record Lease : Type 0 where
  pub target : Option ℕ
  pub released : Bool

abbrev pub States : Type 0
States = Dict State

-- `ConcurrencyManager.current`
unfoldable pub current : States → ℕ → ℕ
current states key = elim (states key) [ none ↦ 0 | some s ↦ s.current ]

-- `try_acquire`; a maximum of 0 stands for every maximum that is not positive
unfoldable pub try_acquire : States → ℕ → ℕ → Option Lease × States
try_acquire states key maximum =
    if maximum == 0
    then (some (record { target = none; released = false }), states)
    else let state : State = elim (states key) [
      | none ↦ record { current = 0; maximum = maximum }
      | some s ↦ record s { maximum = maximum }
    ] in
      if leb state.maximum state.current then (none, insert key state states) else (
        some (record { target = some key; released = false }),
        insert key (record state { current = state.current + 1 }) states,
      )

-- `_release`
unfoldable pub release_key : States → ℕ → States
release_key states key = elim (states key) [
  | none ↦ states
  | some s ↦ insert key (record s { current = s.current - 1 }) states
]

-- `Lease.release`
unfoldable pub release : States → Lease → Lease × States
unfolding release_key
release states lease = if lease.released then (lease, states) else (
  record lease { released = true },
  elim lease.target [ none ↦ states | some key ↦ release_key states key ],
)
