-- ===== src/Tests/Resources.antt =====
-- Bindings, tokens and limits of a client.
use fcam_gateway.Prelude.{ℕ, ◌≡◌, refl, true, false, none, some, List, [], ◌∷◌}
use fcam_gateway.Prelude.Dict.{empty}
use fcam_gateway.Prelude.Text.{codes, strip}
use fcam_gateway.Bindings.{Place, Binding, Table, find, place_of}
use fcam_gateway.Bindings.Registry.{Call, answers, registry_answers}
use fcam_gateway.Bindings.Refines.{bindings_refine, table}
use fcam_gateway.Bindings.Promise.{Owned, Bind, bind_all, bind_all-Owned}
use fcam_gateway.Api.Auth.{AdminConfig, Peer, Login}
use fcam_gateway.Api.Governance.{Moment, Gate, enter}
use fcam_gateway.Api.Governed.{Balanced, Within, enter_limits}
use fcam_gateway.Tests.Data.{a_client, a_session}

abbrev job : List ℕ
job = codes "j1"

-- bound by key 7, refused to key 8, and asked for
abbrev three_calls : List Call
three_calls =
    Call.bind 5 1 7 (codes "crawl") job none
    ∷ Call.bind 6 1 8 (codes "crawl") job none
    ∷ Call.lookup 9 1 (codes "crawl") job
    ∷ []

bindings_refine_example : answers three_calls (table []) ≡ registry_answers three_calls (λ p. none)
unfolding find
bindings_refine_example = bindings_refine three_calls (λ p. none) (table []) ([], refl, λ p. refl)

three_answers : registry_answers three_calls (λ p. none) ≡ none ∷ none ∷ some 7 ∷ []
unfolding registry_answers strip place_of fcam_gateway.Bindings.expiry
three_answers = refl

abbrev the_place : Place
the_place = record { client_id = 1; resource_type = codes "crawl"; resource_id = job }

abbrev the_row : Binding
the_row = record { place = the_place; api_key_id = 7; created_at = 5; expires_at = none }

abbrev another : Bind
another = record { now = 6; client = 1; key = 8; kind = codes "crawl"; id = job; ttl = some 60 }

bind_all-Owned_example : Owned the_place 7 (bind_all (another ∷ []) (table (the_row ∷ [])))
unfolding find
bind_all-Owned_example =
    bind_all-Owned (another ∷ []) the_place 7 (table (the_row ∷ []))
      (record { row = the_row; found = refl; owner = refl })

abbrev a_login : Login
a_login = record { token_hash = 42; client = a_client }

abbrev an_admin : AdminConfig
an_admin = record { admin_token = codes "secret"; ip_allowlist = []; trust_proxy_headers = false }

abbrev a_peer : Peer
a_peer = record {
  host = codes "10.0.0.1";
  forwarded_for = [];
  authorization = some (codes "Bearer secret");
}

-- a client with 2 of its quota of 3 used on another day
abbrev pub a_moment : Moment
a_moment = record { enable_quota_check = true; today = 20; until_midnight = 60; now = 1000000 }

abbrev a_gate : Gate
a_gate = record {
  session = record a_session {
    tables = record a_session.tables {
      client = record a_client { daily_quota = some 3; daily_usage = 3; quota_reset_at = some 19 };
    };
  };
  buckets = empty;
  leases = empty;
}

enter_limits_example :
    Balanced empty (enter a_moment a_gate)
    × ((quota : ℕ) → true ≡ true → some 3 ≡ some quota → Within quota 20 (enter a_moment a_gate))
enter_limits_example = enter_limits a_moment a_gate
