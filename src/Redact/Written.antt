-- ===== src/Redact/Written.antt =====
-- The paths on which `_dump_error_details` of app/middleware.py writes something.
use fcam_gateway.Prelude.{ℕ, ◌≡◌, Bool, true, false, Option, List, is_some}
use fcam_gateway.Redact.{Previewed, failed}

abbrev IsWritten : Option (List ℕ) → Type 0
IsWritten o = is_some o ≡ true

abbrev has_not_failed : Previewed → Bool
has_not_failed failed = false
has_not_failed _ = true

abbrev NotFailed : Previewed → Type 0
NotFailed o = has_not_failed o ≡ true
