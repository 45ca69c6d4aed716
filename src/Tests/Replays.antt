-- ===== src/Tests/Replays.antt =====
-- A request with an idempotency key, begun, completed and asked again.
use fcam_gateway.Prelude.{ℕ, ◌≡◌, refl, true, none, some, List, [], ◌∷◌, arith, length}
use fcam_gateway.Models.{ok, err, failure_after, Code}
use fcam_gateway.Idempotency.{Codec, Settings, Reply, complete, find, start_or_replay}
use fcam_gateway.Prelude.Text.{codes}
use fcam_gateway.Redact.{Json}
use fcam_gateway.Idempotency.Stored.{Wire, stored_codec, response_replayed}
use fcam_gateway.Idempotency.Replay.{table, second_call_refused}

abbrev plain : Codec
plain = record {
  Content = List ℕ;
  Blob = List ℕ;
  size = length;
  pack = λ c. c;
  unpack = λ b. some b;
}

abbrev day : Settings
day = record { enabled = true; ttl_seconds = 86400; max_response_bytes = 100; require_on = [] }

abbrev page : Reply plain
page = record { status = 200; content = 7 ∷ 8 ∷ [] }

-- values are their own texts, and every byte stands for itself
abbrev a_wire : Wire
a_wire = record {
  Text = Json;
  dumps = λ v. v;
  loads = λ v. some v;
  str = λ v. [];
  b64encode = λ b. b;
  b64decode = λ s. some s;
}

abbrev stored : Codec
stored = stored_codec a_wire

abbrev an_answer : Reply stored
an_answer = record {
  status = 200;
  content = record { headers = (codes "content-type", codes "text/plain") ∷ []; body = 7 ∷ 8 ∷ [] };
}

response_replayed_example :
    let first = start_or_replay stored day 1 (some (5 ∷ [])) [] 9 1000 (table stored [] 3) in
    (first.0 ≡ some (ok (some 3, none)))
    × ((start_or_replay stored day 1
          (some (5 ∷ []))
          []
          9
          2000
          (complete stored day (some 3) an_answer first.1)).0
        ≡ some (ok (none, some an_answer)))
unfolding find
response_replayed_example =
    response_replayed a_wire day 1 5 [] [] 9 1000 2000 [] 3 an_answer refl refl refl refl
      (omega arith) (omega arith)

second_call_refused_example :
    let first = start_or_replay plain day 1 (some (5 ∷ [])) [] 9 1000 (table plain [] 3) in
    (start_or_replay plain day 1 (some (5 ∷ [])) [] 9 2000 first.1).0
    ≡ some (err (failure_after 409 Code.idempotency_in_progress (some 1)))
unfolding find
second_call_refused_example =
    second_call_refused plain day 1 5 [] [] 9 9 1000 2000 [] 3 refl refl (omega arith) (omega arith)
