-- ===== src/Trail/Log.antt =====
-- The request log of app/middleware.py: the endpoint of a path, an error that is found in an answer,
-- and the row that is written.
use fcam_gateway.Prelude.{
  ℕ, Bool, true, false, ◌&&◌, ◌||◌, not, Option, none, some, List, [], ◌∷◌, ◌++◌, ◌==◌, ltb, leb,
  if◌then◌else◌, String, length, take, drop,
}
use fcam_gateway.Prelude.Text.{codes, same, starts, contains, split, strip, lower}
use fcam_gateway.Redact.{
  flag, number, text, items, object, Items, item, no_items, Fields, field, no_fields, joined,
  Patterns, dump_error_details,
}
use fcam_gateway.Trail.{Env, State, Response, noted, details_of}

-- `_is_valid_request_id`
unfoldable pub is_valid_request_id : List ℕ → Bool
is_valid_request_id id = leb 8 (length id) && leb (length id) 64 && all_allowed id
  where
    all_allowed : List ℕ → Bool
    all_allowed [] = true
    all_allowed (c ∷ cs) =
        ((leb b'a' c && leb c b'z')
          || (leb b'A' c && leb c b'Z')
          || (leb b'0' c && leb c b'9')
          || c == b'_'
          || c == b'-')
        && all_allowed cs

-- `text.strip("/")`, from both ends
unfoldable pub lstrip_slash : List ℕ → List ℕ
lstrip_slash [] = []
lstrip_slash (c ∷ cs) = let rest = lstrip_slash cs in if c == b'/' then rest else c ∷ cs

unfoldable pub rstrip_slash : List ℕ → List ℕ
rstrip_slash [] = []
rstrip_slash (c ∷ cs) = elim (rstrip_slash cs) [
  | [] ↦ if c == b'/' then [] else c ∷ []
  | d ∷ ds ↦ c ∷ d ∷ ds
]

-- `endpoint or "unknown"`, of at most 32 characters
abbrev pub or_unknown : List ℕ → List ℕ
or_unknown [] = codes "unknown"
or_unknown (c ∷ cs) = take 32 (c ∷ cs)

-- the endpoint of what follows the prefix, by the segments of it
unfoldable pub endpoint_of : Bool → List (List ℕ) → List ℕ
endpoint_of exa [] = codes "unknown"
endpoint_of true ([] ∷ rest) = codes "unknown"
endpoint_of true ((c ∷ cs) ∷ rest) = codes "exa_" ++ take 32 (c ∷ cs)
endpoint_of false (first ∷ []) =
    if same first (codes "crawl") then codes "crawl" else or_unknown first
endpoint_of false (first ∷ second ∷ rest) =
    if same first (codes "crawl") then codes "crawl_status" else or_unknown first

unfoldable pub endpoint_after : String → Bool → List ℕ → List ℕ
unfolding lstrip_slash rstrip_slash endpoint_of split
endpoint_after prefix exa path =
    elim (rstrip_slash (lstrip_slash (drop (length (codes prefix)) path))) [
      | [] ↦ codes "unknown"
      | c ∷ cs ↦ endpoint_of exa (split b'/' (c ∷ cs))
    ]

-- `_infer_api_endpoint`
unfoldable pub infer_api_endpoint : List ℕ → Option (List ℕ)
unfolding endpoint_after
infer_api_endpoint path =
    if starts (codes "/api/") path
    then some (endpoint_after "/api/" false path)
    else if starts (codes "/v1/") path
    then some (endpoint_after "/v1/" false path)
    else if starts (codes "/v2/") path
    then some (endpoint_after "/v2/" false path)
    else if starts (codes "/exa/") path
    then some (endpoint_after "/exa/" true path)
    else none

-- `_MAX_ERROR_BODY_PREVIEW_BYTES`
abbrev pub max_preview : ℕ
max_preview = 8192

-- what is told of the body of an answer
unfoldable pub body_details : Env → Response → Fields
unfolding contains lower joined
body_details env r = elim r.body [
  | [] ↦ no_fields
  | b ∷ bs ↦
      (let cut = ltb max_preview (length (b ∷ bs)) in
        let is_json = contains (codes "application/json") (lower r.content_type) in
        let parsed : Fields = elim (env.loads (b ∷ bs)) [
          | none ↦ no_fields
          | some v ↦ field (codes "body_json") v no_fields
        ] in
        field (codes "body_preview") (text (env.decode (take max_preview (b ∷ bs)))) (
          field (codes "body_truncated") (flag cut)
            (if is_json && not cut then parsed else no_fields)))
]

-- the error that an answer is taken for
unfoldable pub captured : Env → Response → State → State
unfolding body_details strip
captured env r = noted (codes "UPSTREAM_HTTP_ERROR") (
    details_of (codes "UPSTREAM_HTTP_ERROR") (codes "Upstream returned error response")
      (object (
        field (codes "status_code") (number r.status_code) (
          field (codes "content_type") (text (strip r.content_type))
            (field (codes "body_bytes") (number (length r.body)) (body_details env r)))))
      no_fields)

-- `_maybe_capture_error_from_response`; the answer that it rebuilds is the one that it read
unfoldable pub maybe_capture_error : Env → Response → State → State
unfolding captured
maybe_capture_error env r s = elim s.error_code [
  | some code ↦ s
  | none ↦ if ltb r.status_code 400 then s else captured env r s
]

-- `RequestLog`
pub record RequestLog : Type 0 where
  pub request_id : List ℕ
  pub client_id : Option ℕ
  pub api_key_id : Option ℕ
  pub endpoint : List ℕ
  pub method : List ℕ
  pub status_code : ℕ
  pub response_time_ms : ℕ
  pub success : Bool
  pub retry_count : ℕ
  pub error_message : Option (List ℕ)
  pub error_details : Option (List ℕ)
  pub idempotency_key : Option (List ℕ)

-- what is looked at of the request, and the time that it took
pub record Request : Type 0 where
  pub path : List ℕ
  pub method : List ℕ
  pub x_request_id : Option (List ℕ)
  pub x_idempotency_key : Option (List ℕ)
  pub latency_ms : ℕ

abbrev pub texts : List (List ℕ) → Items
texts [] = no_items
texts (t ∷ ts) = item (text t) (texts ts)

-- `raw_details`
unfoldable pub raw_details : State → Fields
unfolding joined
raw_details s =
    let known : Fields = elim s.error_details [
      | none ↦ no_fields
      | some (object fs) ↦ fs
      | some v ↦ field (codes "value") v no_fields
    ] in
    let reasons : Fields = elim s.switch_reasons [
      | [] ↦ no_fields
      | t ∷ ts ↦ field (codes "switch_reasons") (items (texts (t ∷ ts))) no_fields
    ] in
    let score : Fields = elim s.selection_score [
      | none ↦ no_fields
      | some v ↦ field (codes "selection_score") v no_fields
    ] in
    joined known (joined reasons score)

-- `getattr(request.state, "endpoint", None) or _infer_api_endpoint(request.url.path)`
unfoldable pub endpoint_for : State → List ℕ → Option (List ℕ)
unfolding infer_api_endpoint
endpoint_for s path = elim s.endpoint [
  | none ↦ infer_api_endpoint path
  | some [] ↦ infer_api_endpoint path
  | some (c ∷ cs) ↦ some (c ∷ cs)
]

module _ (env : Env) (r : Patterns) (q : Request) where
  -- the row that is written
  unfoldable pub row_of : State → List ℕ → Response → RequestLog
  unfolding raw_details dump_error_details
  row_of s endpoint a = record {
    request_id = elim s.request_id [
      | none ↦ codes "-"
      | some [] ↦ codes "-"
      | some (c ∷ cs) ↦ c ∷ cs
    ];
    client_id = s.client_id;
    api_key_id = s.api_key_id;
    endpoint = endpoint;
    method = q.method;
    status_code = a.status_code;
    response_time_ms = q.latency_ms;
    success = leb 200 a.status_code && ltb a.status_code 300;
    retry_count = s.retry_count;
    error_message = s.error_code;
    error_details = elim (raw_details s) [
      | no_fields ↦ none
      | field k v fs ↦ dump_error_details env.printer r (object (field k v fs))
    ];
    idempotency_key = q.x_idempotency_key;
  }

  -- `_persist_request_log` in a database that takes the row or does not
  unfoldable pub persist_request_log : Bool → Response → State → List RequestLog → List RequestLog
  unfolding endpoint_for row_of
  persist_request_log is_written a s rows = elim (endpoint_for s q.path) [
    | none ↦ rows
    | some endpoint ↦ if is_written then row_of s endpoint a ∷ rows else rows
  ]
