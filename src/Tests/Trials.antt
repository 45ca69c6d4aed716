-- ===== src/Tests/Trials.antt =====
-- The test of a key, of one that is out of use and of one that the upstream does not know.
use text.Mathlib.Text.{◌==◌ as str_eq}
use fcam_gateway.Prelude.{if◌then◌else◌, false, ◌≡◌, refl, true, none, some}
use fcam_gateway.Prelude.Text.{codes}
use fcam_gateway.Models.{ApiKey, Status}
use fcam_gateway.Models.Rows.{map_option}
use fcam_gateway.Forwarder.{Reply, Response}
use fcam_gateway.Forwarder.Marks.{is_out, row}
use fcam_gateway.Forwarder.KeyTest.{Upstream, test_key}
use fcam_gateway.Forwarder.KeyTest.Tested.{tested_stays_out}
use fcam_gateway.Tests.Data.{new_key, an_env, response_of}
use fcam_gateway.Tests.Requests.{the_pool, retired}

-- no path is known but `/v1/scrape`
abbrev old_upstream : Upstream
old_upstream path n key = record {
  elapsed = 1000;
  reply = Reply.response (response_of (if str_eq path "/v1/scrape" then 200 else 404));
}

abbrev confused : Response
confused = record (response_of 500) { body = codes "malformed token" }

abbrev retired_key : ApiKey
retired_key = record (new_key 1) { is_active = false; status = Status.invalid }

tested_stays_out_example :
    map_option is_out (
      row the_pool an_env
        (test_key the_pool an_env old_upstream none "scrape" retired_key retired).1
        1)
    ≡ some true
unfolding row fcam_gateway.Models.find_key
tested_stays_out_example =
    tested_stays_out the_pool an_env old_upstream none "scrape" retired_key retired_key retired refl
      refl refl
