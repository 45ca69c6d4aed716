-- ===== src/Tests/Refreshes.antt =====
-- A round of the credit refresh over two keys, and over a key of another provider.
use fcam_gateway.Prelude.{◌≡◌, refl, true, false, none, some, [], ◌∷◌, arith, ◌==◌, if◌then◌else◌}
use fcam_gateway.Models.{ApiKey, Status, Session}
use fcam_gateway.Credit.Probe.{Answer}
use fcam_gateway.Credit.Refresh.{Setup, is_due, due, refresh_once}
use fcam_gateway.Credit.Round.{one_by_one, refresh_once-one_by_one}
use fcam_gateway.Credit.Left.{round_rests, exa_key_disabled}
use fcam_gateway.Tests.Credits.{calendar}
use fcam_gateway.Tests.Data.{new_key, a_session, a_refresh, month_start}

-- key 1 has 40 of 100 credits, and key 2 is limited
abbrev a_setup : Setup
a_setup = record {
  now = 1000;
  config = a_refresh;
  month_start = month_start;
  batch_size = 1;
  retry_delay_minutes = 5;
  decrypts = λ c. true;
  answer = λ id. if id == 1 then Answer.counts 40 100 else Answer.other 429;
  answered_at = λ id. 1500;
  applied_at = λ id. 2000;
}

refresh_once-one_by_one_example :
    refresh_once a_setup a_session
    ≡ one_by_one a_setup (due 1000 (new_key 1 ∷ new_key 2 ∷ [])) a_session
refresh_once-one_by_one_example = refresh_once-one_by_one a_setup a_session

abbrev a_row : ApiKey
a_row = record (new_key 1) {
  cached_remaining_credits = some 40;
  cached_plan_credits = some 100;
  last_credit_snapshot_id = some 1;
  last_credit_check_at = some 1500;
  next_refresh_at = some 3600002000;
}

round_rests_example : is_due 1000 a_row ≡ false
unfolding refresh_once fcam_gateway.Credit.Refresh.is_due
round_rests_example = round_rests a_setup a_session calendar (λ id. omega arith) refl 1 a_row refl

abbrev exa_key : ApiKey
exa_key = record (new_key 2) { provider = "exa" }

abbrev exa_session : Session
exa_session = record a_session { tables = record a_session.tables { keys = exa_key ∷ [] } }

abbrev refusing : Setup
refusing = record a_setup { answer = λ id. Answer.other 401 }

exa_key_disabled_example :
    (refresh_once refusing exa_session).tables.keys
    ≡ record exa_key {
      status = Status.invalid;
      is_active = false;
      next_refresh_at = none;
      cached_remaining_credits = some 0;
    }
      ∷ []
unfolding is_due
exa_key_disabled_example =
    exa_key_disabled refusing exa_key exa_session refl refl refl refl refl refl
