-- ===== src/Tests/Credits.antt =====
-- Credit probes and the schedule, with months of 30 days.
use native.Mathlib.Nat.{div-add-mod', mod-lt}
use fcam_gateway.Prelude.{ℕ, ◌+◌, ◌*◌, ◌/◌, ◌%◌, ◌≤◌, ◌<◌, ◌≡◌, some, ap, arith}
use fcam_gateway.Models.{ApiKey, Status}
use fcam_gateway.Credit.{FetchResult, cooling}
use fcam_gateway.Credit.Schedule.{IsCalendar, IsGraded}
use fcam_gateway.Tests.Data.{new_key, a_refresh, month, month_start}

month_parts : (t : ℕ) → (t / month * month + t % month ≡ t) × (t % month < month)
month_parts t = (div-add-mod' t month, mod-lt t (omega arith))

same_month : (s t : ℕ) → month_start s ≤ t → t ≤ s → t / month ≡ s / month
same_month s t h k = omega (arith, month_parts s, month_parts t, h, k)

pub calendar : IsCalendar month_start
calendar = record {
  starts = λ t. omega (arith, month_parts t);
  ends = λ t. omega (arith, month_parts t);
  interval = λ s t h k. ap (λ q. q * month) (same_month s t h k);
}

graded : IsGraded a_refresh
graded = record { high_le = omega arith; medium_le = omega arith; normal_le = omega arith }

abbrev limited : FetchResult
limited = record { kind = cooling; remaining_credits = 0; plan_credits = 0; fetched_at = 50 }

-- a key that rests for an hour
abbrev resting : ApiKey
resting = record (new_key 1) { status = Status.cooling; cooldown_until = some 3600000000 }
