-- ===== src/Tests/Trails.antt =====
-- A request that is refused, its answer and its row in the log, and details that are too long.
use fcam_gateway.Prelude.{ℕ, zero, suc, ◌≡◌, refl, true, Option, none, some, List, [], ◌∷◌, arith}
use fcam_gateway.Prelude.Text.{codes}
use fcam_gateway.Redact.{
  Json, text, object, Fields, field, no_fields, Patterns, Printer, dump_error_details,
  default_sensitive,
}
use fcam_gateway.Redact.Agree.{AgreeFields, shown, hidden, no_others, same_value}
use fcam_gateway.Redact.Dumped.{Fits, details_hide}
use fcam_gateway.Trail.{Env, State, FcamError, fcam_error, Outcome, responded, raised}
use fcam_gateway.Trail.Log.{RequestLog, Request}
use fcam_gateway.Trail.Chain.{with_handlers, dispatch_errors, served}
use fcam_gateway.Trail.Logged.{Trailed, served-Trailed}
use fcam_gateway.Trail.Alike.{error_alike}

-- the text of a first field, or "{}"
abbrev printed : Json → List ℕ
printed (object (field k (text s) fs)) = s
printed v = codes "{}"

abbrev many : ℕ → List ℕ
many zero = []
many (suc n) = b'x' ∷ many n

abbrev kept_texts : Patterns
kept_texts = record { hide_bearer = λ s. s; hide_key = λ s. s }

abbrev a_printer : Printer
a_printer = record { dumps = λ v. some (printed v); str = printed }

-- a long message, with a token
abbrev long_details : List ℕ → Fields
long_details token =
    field (codes "message") (text (many 2001)) (field (codes "Token") (text token) no_fields)

abbrev alike : AgreeFields kept_texts default_sensitive (long_details []) (long_details (codes "t"))
unfolding default_sensitive fcam_gateway.Prelude.Text.one_of fcam_gateway.Prelude.Text.lower
alike =
    shown _ _ _ _ _ (same_value (text (many 2001)))
      (hidden (codes "Token") (text []) (text (codes "t")) no_fields no_fields refl no_others)

details_hide_example :
    (dump_error_details a_printer kept_texts (object (long_details []))
      ≡ dump_error_details a_printer kept_texts (object (long_details (codes "t"))))
    × Fits (dump_error_details a_printer kept_texts (object (long_details [])))
details_hide_example =
    details_hide a_printer kept_texts (long_details []) (long_details (codes "t")) (omega arith)
      alike

abbrev an_env : Env
an_env = record {
  dumps = printed;
  printer = a_printer;
  loads = λ s. none;
  decode = λ s. s;
  new_request_id = codes "0123456789abcdef";
}

abbrev a_request : Request
a_request = record {
  path = codes "/v1/crawl/j1";
  method = codes "GET";
  x_request_id = some (codes "short");
  x_idempotency_key = none;
  latency_ms = 3;
}

abbrev a_state : State
a_state = record {
  request_id = some (codes "0123456789abcdef");
  endpoint = none;
  client_id = some 1;
  api_key_id = none;
  retry_count = 0;
  error_code = none;
  error_details = none;
  switch_reasons = [];
  selection_score = none;
}

abbrev too_many : FcamError
too_many = record {
  status_code = 429;
  code = codes "RATE_LIMITED";
  message = codes "Too many requests";
  details = none;
  retry_after = some 2;
}

abbrev refused : Option (List ℕ) → State → Outcome × State
refused ctx t = (raised (fcam_error too_many), t)

served-Trailed_example :
    Trailed an_env kept_texts a_request []
      (served an_env kept_texts a_request true refused a_state [])
unfolding fcam_gateway.Trail.is_proxy_path fcam_gateway.Trail.Log.is_valid_request_id
served-Trailed_example =
    served-Trailed an_env kept_texts a_request refused a_state [] (λ ctx t. refl) refl refl

error_alike_example :
    dispatch_errors an_env
      (codes "/v1/scrape")
      (some (codes "0123456789abcdef"))
      (refused none)
      a_state
    ≡ dispatch_errors an_env
        (codes "/v1/scrape")
        (some (codes "0123456789abcdef"))
        (with_handlers an_env (codes "/v1/scrape") (some (codes "0123456789abcdef")) (refused none))
        a_state
error_alike_example =
    error_alike an_env (codes "/v1/scrape") too_many a_state b'0' (codes "123456789abcdef") refl
