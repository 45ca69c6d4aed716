-- ===== src/Tests/Keys.antt =====
-- The key pool on two keys.
use fcam_gateway.Prelude.{is_some, ℕ, ◌≡◌, refl, true, false, none, some, List, [], ◌∷◌}
use fcam_gateway.Prelude.Dict.{empty}
use fcam_gateway.Floats.Exact.{exact}
use fcam_gateway.Models.{ApiKey, Status, commit}
use fcam_gateway.RateLimit.{peek}
use fcam_gateway.KeyPool.{score_key, failure_count}
use fcam_gateway.KeyPool.Judge.{Around, scan}
use fcam_gateway.KeyPool.Choice.{exploit, sorted, before}
use fcam_gateway.KeyPool.Select.{of_provider, Selected, select, finish}
use fcam_gateway.KeyPool.Eligible.{IsUsable, IsFrom, selected-IsUsable}
use fcam_gateway.KeyPool.Total.{select-Answers}
use fcam_gateway.Forwarder.Pinned.{tick}
use fcam_gateway.Tests.Data.{new_key, a_session, a_schedule, a_pool}

-- key 1 has been tried
abbrev second_try : Around exact tick
second_try = record {
  sched = a_schedule;
  now = 1000000000;
  mono = 1000000000;
  buckets = some empty;
  cooldown = λ id. none;
  exclude = 1 ∷ [];
  roll = 0;
  pick = 0;
}

abbrev chosen : Selected exact tick
chosen = record { api_key = new_key 2; score = 0; explore = false }

selected-IsUsable_example :
    IsUsable exact tick second_try (new_key 2)
    × IsFrom exact tick second_try (of_provider "firecrawl" a_session.tables.keys) (new_key 2)
unfolding select score_key failure_count peek sorted before commit finish exploit
selected-IsUsable_example =
    selected-IsUsable exact tick second_try "firecrawl" a_pool a_session chosen refl

-- key 1 rests for 5 seconds, key 2 has no credits
abbrev weary : List ApiKey
weary =
    record (new_key 1) { status = Status.cooling; cooldown_until = some 1005000000 }
    ∷ record (new_key 2) { cached_remaining_credits = some 0 }
    ∷ []

abbrev first_try : Around exact tick
first_try = record second_try { exclude = [] }

abbrev scored : List (ℕ × ApiKey)
scored = (3, new_key 1) ∷ (8, new_key 2) ∷ []

select-Answers_example :
    is_some (select exact tick second_try "firecrawl" a_pool a_session).0 ≡ true
unfolding scan of_provider peek score_key failure_count
select-Answers_example =
    select-Answers exact tick second_try "firecrawl" a_pool a_session refl refl (refl, tt)
