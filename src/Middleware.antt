-- ===== src/Middleware.antt =====
-- `RequestLimitsMiddleware` of app/middleware.py: the paths, the size and the type of what is let in.
--
-- Paths, headers and bodies are lists of code points or bytes.
pub mod Body
pub mod Passed
use fcam_gateway.Prelude.{
  ℕ, ◌+◌, Bool, true, false, ◌&&◌, not, Option, none, some, List, [], ◌∷◌, ◌++◌, ltb, if◌then◌else◌,
  length, drop, is_some, String,
}
use fcam_gateway.Prelude.Text.{codes, same, starts, split, contains, one_of}
use fcam_gateway.Models.{Result, ok, err, raise, Code}

-- `self`, as `__init__` leaves it
pub record Limits : Type 0 where
  pub max_body_bytes : ℕ
  pub allowed_api_paths : List (List ℕ)
  pub allowed_exa_paths : List (List ℕ)
  pub stream_body_limit : Bool

-- the header `content-length`; `absent` is an empty one too
pub data Length : Type 0 where
  absent malformed negative : Length
  bytes : ℕ → Length

-- what is looked at of a request, with its body in the chunks of `request.stream()`
pub record Inbound : Type 0 where
  pub path : List ℕ
  pub method : List ℕ
  pub content_length : Length
  pub content_type : List ℕ
  pub chunks : List (List ℕ)

-- `seg in paths`
unfoldable pub is_among : List (List ℕ) → List ℕ → Bool
is_among [] seg = false
is_among (p ∷ ps) seg = if same p seg then true else is_among ps seg

-- `text.split("/", 1)[0]`
unfoldable pub first_segment : List ℕ → List ℕ
first_segment text = elim (split b'/' text) [ [] ↦ [] | seg ∷ rest ↦ seg ]

-- `path[len(prefix):].split("/", 1)[0]`
unfoldable pub segment_after : String → List ℕ → List ℕ
unfolding first_segment
segment_after prefix path = first_segment (drop (length (codes prefix)) path)

-- `api_prefix`
unfoldable pub api_prefix : List ℕ → Option String
api_prefix path =
    if starts (codes "/api/") path
    then some "/api/"
    else if starts (codes "/v1/") path
    then some "/v1/"
    else if starts (codes "/v2/") path
    then some "/v2/"
    else none

unfoldable pub is_exa : List ℕ → Bool
is_exa path = starts (codes "/exa/") path

-- `b"".join(chunks)`
unfoldable pub joined : List (List ℕ) → List ℕ
joined [] = []
joined (c ∷ cs) = c ++ joined cs

-- the loop over the stream, with the bytes counted and the chunks kept so far
unfoldable pub read_stream : ℕ → ℕ → List (List ℕ) → List (List ℕ) → Result (List ℕ)
unfolding joined
read_stream max_b total kept [] = ok (joined kept)
read_stream max_b total kept ([] ∷ chunks) = read_stream max_b total kept chunks
read_stream max_b total kept ((b ∷ bs) ∷ chunks) =
    let rest = read_stream max_b (total + length (b ∷ bs)) (kept ++ (b ∷ bs) ∷ []) chunks in
    if ltb max_b (total + length (b ∷ bs)) then raise 413 Code.request_too_large else rest

-- the body read as a whole, and measured then
unfoldable pub read_whole : ℕ → List (List ℕ) → Result (List ℕ)
unfolding joined
read_whole max_b chunks =
    if ltb max_b (length (joined chunks))
    then raise 413 Code.request_too_large
    else ok (joined chunks)

module _ (self : Limits) where
  -- `_read_body_limited`
  unfoldable pub read_body_limited : List (List ℕ) → Result (List ℕ)
  unfolding read_stream read_whole
  read_body_limited chunks =
      if not self.stream_body_limit
      then read_whole self.max_body_bytes chunks
      else read_stream self.max_body_bytes 0 [] chunks

  -- whether the first segment of the path is allowed
  unfoldable pub path_allowed : List ℕ → Bool
  unfolding api_prefix is_exa segment_after is_among
  path_allowed path =
      let api : Bool = elim (api_prefix path) [
        | none ↦ true
        | some prefix ↦ is_among self.allowed_api_paths (segment_after prefix path)
      ] in
      let exa : Bool = elim self.allowed_exa_paths [
        | [] ↦ true
        | p ∷ ps ↦ if is_exa path then is_among (p ∷ ps) (segment_after "/exa/" path) else true
      ] in
      api && exa

  unfoldable pub is_proxy : List ℕ → Bool
  unfolding api_prefix is_exa
  is_proxy path = if is_some (api_prefix path) then true else is_exa path

  -- what the header `content-length` is refused for
  unfoldable pub length_refused : Length → Option (Result (Option (List ℕ)))
  length_refused absent = none
  length_refused malformed = some (raise 400 Code.validation_error)
  length_refused negative = none
  length_refused (bytes n) =
      if ltb self.max_body_bytes n then some (raise 413 Code.request_too_large) else none

  -- from the body on: the body with which the request is passed on, where it has one
  unfoldable pub with_body : Inbound → Result (List ℕ) → Result (Option (List ℕ))
  unfolding is_proxy
  with_body q (err f) = err f
  with_body q (ok []) = ok none
  with_body q (ok (b ∷ bs)) =
      if is_proxy q.path && not (contains (codes "application/json") q.content_type)
      then raise 415 Code.unsupported_media_type
      else ok (some (b ∷ bs))

  -- `dispatch`, up to `call_next`
  unfoldable pub dispatch : Inbound → Result (Option (List ℕ))
  unfolding path_allowed length_refused with_body read_body_limited
  dispatch q =
      let judged : Result (Option (List ℕ)) = elim (length_refused q.content_length) [
        | some refusal ↦ refusal
        | none ↦ with_body q (read_body_limited q.chunks)
      ] in
      if not (path_allowed q.path)
      then raise 404 Code.path_not_allowed
      else if one_of ("GET" ∷ "HEAD" ∷ []) q.method
      then ok none
      else judged
