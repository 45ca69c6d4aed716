-- ===== src/Trail.antt =====
-- app/errors.py: the errors of a request and their answers. The middleware that goes with them is in
-- the children, from app/middleware.py.
--
-- `json.dumps` of an answer and of details, `json.loads`, the decoding of UTF-8 and a new id are arguments. Of the headers of
-- an answer, there are those that this code reads or writes.
pub mod Log
pub mod Chain
pub mod Logged
pub mod Alike
use fcam_gateway.Prelude.{
  ℕ, zero, suc, Bool, false, ◌||◌, Option, none, some, List, [], ◌∷◌, ◌==◌, if◌then◌else◌,
}
use fcam_gateway.Prelude.Text.{codes, starts}
use fcam_gateway.Redact.{
  Json, null, flag, number, text, items, object, Items, item, no_items, Fields, field, no_fields,
  Printer,
}

pub record Env : Type 0 where
  pub dumps : Json → List ℕ
  pub printer : Printer
  pub loads : List ℕ → Option Json
  pub decode : List ℕ → List ℕ
  pub new_request_id : List ℕ

-- `request.state`, where this code uses it
pub record State : Type 0 where
  pub request_id : Option (List ℕ)
  pub endpoint : Option (List ℕ)
  pub client_id : Option ℕ
  pub api_key_id : Option ℕ
  pub retry_count : ℕ
  pub error_code : Option (List ℕ)
  pub error_details : Option Json
  pub switch_reasons : List (List ℕ)
  pub selection_score : Option Json

pub record Response : Type 0 where
  pub status_code : ℕ
  pub x_request_id : Option (List ℕ)
  pub retry_after : Option ℕ
  pub content_type : List ℕ
  pub body : List ℕ

-- `FcamError`
pub record FcamError : Type 0 where
  pub status_code : ℕ
  pub code : List ℕ
  pub message : List ℕ
  pub details : Option Json
  pub retry_after : Option ℕ

-- what can be raised; the errors of a validation are without their inputs
pub data Raised : Type 0 where
  fcam_error : FcamError → Raised
  validation_error : Items → Raised
  http_exception : ℕ → Raised
  unexpected : List ℕ → Raised

pub data Outcome : Type 0 where
  responded : Response → Outcome
  raised : Raised → Outcome

abbrev pub or_null : Option Json → Json
or_null none = null
or_null (some v) = v

-- `a or b or c` on texts
abbrev pub first_id : Option (List ℕ) → Option (List ℕ) → List ℕ → List ℕ
first_id (some (c ∷ cs)) b d = c ∷ cs
first_id _ (some (c ∷ cs)) d = c ∷ cs
first_id _ _ d = d

-- `JSONResponse`
unfoldable pub json_response : Env → List ℕ → ℕ → Option ℕ → Fields → Response
json_response env id status retry_after content = record {
  status_code = status;
  x_request_id = some id;
  retry_after = retry_after;
  content_type = codes "application/json";
  body = env.dumps (object content);
}

-- `_json_error`
unfoldable pub json_error : Env → List ℕ → ℕ → List ℕ → List ℕ → Option Json → Option ℕ → Response
unfolding json_response
json_error env id status code message details retry_after =
    json_response env id status retry_after (
      field (codes "request_id") (text id) (
        field (codes "error")
          (object (
            field (codes "code") (text code) (
              field (codes "message") (text message)
                (field (codes "details") (or_null details) no_fields))))
          no_fields))

-- `build_error_response`
unfoldable pub build_error_response : Env → List ℕ → FcamError → Response
unfolding json_error
build_error_response env id e =
    json_error env id e.status_code e.code e.message e.details e.retry_after

-- `_firecrawl_json_error`; an empty code is left out
unfoldable pub firecrawl_json_error : Env → List ℕ → ℕ → List ℕ → List ℕ → Option ℕ → Response
unfolding json_response
firecrawl_json_error env id status code message retry_after =
    let last : Fields = elim code [
      | [] ↦ no_fields
      | c ∷ cs ↦ field (codes "code") (text (c ∷ cs)) no_fields
    ] in
    json_response env id status retry_after
      (field (codes "success") (flag false) (field (codes "error") (text message) last))

-- `build_proxy_error_response`
unfoldable pub build_proxy_error_response : Env → List ℕ → FcamError → Response
unfolding firecrawl_json_error
build_proxy_error_response env id e =
    firecrawl_json_error env id e.status_code e.code e.message e.retry_after

-- `is_proxy_path`
unfoldable pub is_proxy_path : List ℕ → Bool
is_proxy_path path =
    starts (codes "/api/") path
    || starts (codes "/v1/") path
    || starts (codes "/v2/") path
    || starts (codes "/exa/") path

-- `request.state.error_code` and `request.state.error_details`
abbrev pub noted : List ℕ → Fields → State → State
noted code details s = record s { error_code = some code; error_details = some (object details) }

abbrev pub number_or_null : Option ℕ → Json
number_or_null none = null
number_or_null (some n) = number n

abbrev pub details_of : List ℕ → List ℕ → Json → Fields → Fields
details_of code message details rest =
    field (codes "code") (text code)
      (field (codes "message") (text message) (field (codes "details") details rest))

-- what is kept of an `FcamError`
unfoldable pub error_noted : FcamError → State → State
error_noted e = noted e.code (
    details_of e.code e.message (or_null e.details)
      (field (codes "retry_after") (number_or_null e.retry_after) no_fields))

-- the first of some errors
unfoldable pub first_items : ℕ → Items → Items
first_items zero xs = no_items
first_items (suc n) no_items = no_items
first_items (suc n) (item v xs) = item v (first_items n xs)

-- the handlers that `register_exception_handlers` registers, on a path, with the id of the context
module _ (env : Env) (path : List ℕ) (ctx : Option (List ℕ)) where
  abbrev pub id_of : State → List ℕ
  id_of s = first_id ctx s.request_id (codes "-")

  unfoldable pub handle_fcam_error : FcamError → State → Response × State
  unfolding build_error_response firecrawl_json_error is_proxy_path error_noted
  handle_fcam_error e s = (
    if is_proxy_path path
        then firecrawl_json_error env (id_of s) e.status_code e.code e.message e.retry_after
        else build_error_response env (id_of s) e,
    error_noted e s,
  )

  unfoldable pub handle_validation_error : Items → State → Response × State
  unfolding json_error firecrawl_json_error is_proxy_path first_items
  handle_validation_error errors s =
      let code = codes "VALIDATION_ERROR" in
      let listed : Items → Json = λ xs. object (field (codes "errors") (items xs) no_fields) in
      (
        if is_proxy_path path
            then firecrawl_json_error env (id_of s) 400 code (codes "Invalid request parameters")
                none
            else json_error env (id_of s) 400 code (codes "Validation error") (some (listed errors))
                none,
        noted code
            (details_of code (codes "Validation error") (listed (first_items 20 errors)) no_fields)
            s,
      )

  unfoldable pub handle_http_exception : ℕ → State → Response × State
  unfolding json_error firecrawl_json_error is_proxy_path
  handle_http_exception status s =
      let code = if status == 404 then codes "NOT_FOUND" else codes "INTERNAL_ERROR" in
      let message = if status == 404 then codes "Not found" else codes "HTTP error" in
      let known : Json = object (field (codes "status_code") (number status) no_fields) in
      (
        if is_proxy_path path
            then firecrawl_json_error env (id_of s) status code message none
            else json_error env (id_of s) status code message none none,
        noted code (details_of code message known no_fields) s,
      )

  unfoldable pub handle_unexpected : List ℕ → State → Response × State
  unfolding json_error firecrawl_json_error is_proxy_path
  handle_unexpected name s =
      let code = codes "INTERNAL_ERROR" in
      let message = codes "Internal error" in
      let known : Json = object (field (codes "exception_type") (text name) no_fields) in
      (
        if is_proxy_path path
            then firecrawl_json_error env (id_of s) 500 (codes "UNKNOWN_ERROR")
                (codes "An unexpected error occurred on the server.") none
            else json_error env (id_of s) 500 code message none none,
        noted code (details_of code message known no_fields) s,
      )
