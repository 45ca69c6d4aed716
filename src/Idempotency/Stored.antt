-- ===== src/Idempotency/Stored.antt =====
-- How app/core/idempotency.py stores a response and reads it back: the codec of the program.
-- `json.dumps`, `json.loads`, `str`, the encoding in base 64 and its decoding are arguments.
use fcam_gateway.Prelude.{
  ℕ, ◌+◌, ◌≤◌, ◌≡◌, refl, ap, max, Bool, true, false, not, Option, none, some, List, [], ◌∷◌, ◌==◌,
  length, if◌then◌else◌,
}
use fcam_gateway.Prelude.Text.{codes}
use fcam_gateway.Models.{ok}
use fcam_gateway.Redact.{
  Json, null, flag, number, text, items, object, no_items, Fields, field, no_fields, get,
}
use fcam_gateway.Idempotency.{Codec, Settings, Entry, Reply, life, find, start_or_replay, complete}
use fcam_gateway.Idempotency.Replay.{table, replayed}

pub record Wire : Type 1 where
  pub Text : Type 0
  pub dumps : Json → Text
  pub loads : Text → Option Json
  pub str : Json → List ℕ
  pub b64encode : List ℕ → List ℕ
  pub b64decode : List ℕ → Option (List ℕ)

-- the headers, of which no two have the same name, and the body
pub record Content : Type 0 where
  pub headers : List (List ℕ × List ℕ)
  pub body : List ℕ

unfoldable pub header_fields : List (List ℕ × List ℕ) → Fields
header_fields [] = no_fields
header_fields ((k, v) ∷ hs) = field k (text v) (header_fields hs)

-- a value that `or` passes over
unfoldable pub is_falsy : Json → Bool
is_falsy null = true
is_falsy (flag b) = not b
is_falsy (number n) = n == 0
is_falsy (text []) = true
is_falsy (items no_items) = true
is_falsy (object no_fields) = true
is_falsy v = false

-- `data.get("headers") or {}`, where it is a mapping
unfoldable pub headers_of : Option Json → Option Fields
unfolding is_falsy
headers_of none = some no_fields
headers_of (some (object fs)) = some fs
headers_of (some v) = if is_falsy v then some no_fields else none

-- `data.get("body_b64") or ""`, where it is a text
unfoldable pub body_of : Option Json → Option (List ℕ)
unfolding is_falsy
body_of none = some []
body_of (some (text s)) = some s
body_of (some v) = if is_falsy v then some [] else none

-- `data.get("v") == 1`; `True` is 1 too
unfoldable pub is_version : Option Json → Bool
is_version (some (number n)) = n == 1
is_version (some (flag b)) = b
is_version _ = false

module _ (W : Wire) where
  open W use {Text, dumps, loads, b64encode, b64decode}

  abbrev pub blob_of : Content → Json
  blob_of c = object (
      field (codes "v") (number 1) (
        field (codes "headers") (object (header_fields c.headers))
          (field (codes "body_b64") (text (b64encode c.body)) no_fields)))

  -- `_serialize_response` of a response that is not too large
  unfoldable pub serialize : Content → Text
  unfolding header_fields
  serialize c = dumps (blob_of c)

  -- `str(v)`
  abbrev pub str_of : Json → List ℕ
  str_of (text s) = s
  str_of v = W.str v

  unfoldable pub safe_headers : Fields → List (List ℕ × List ℕ)
  safe_headers no_fields = []
  safe_headers (field k v fs) = (k, str_of v) ∷ safe_headers fs

  -- from `body` on
  unfoldable pub read_body : Fields → List ℕ → Option Content
  unfolding safe_headers
  read_body hs body_b64 = elim (b64decode body_b64) [
    | none ↦ none
    | some body ↦ some (record { headers = safe_headers hs; body = body })
  ]

  -- the mapping that was read
  unfoldable pub read_fields : Fields → Option Content
  unfolding get headers_of body_of is_version read_body
  read_fields fs =
      let found : Option Content = elim (headers_of (get (codes "headers") fs)) [
        | none ↦ none
        | some hs ↦ elim (body_of (get (codes "body_b64") fs)) [
          | none ↦ none
          | some s ↦ read_body hs s
        ]
      ] in
      if is_version (get (codes "v") fs) then found else none

  -- `_deserialize_response`, but for the status; nothing where it raises
  unfoldable pub deserialize_content : Text → Option Content
  unfolding read_fields
  deserialize_content t = elim (loads t) [
    | none ↦ none
    | some (object fs) ↦ read_fields fs
    | some v ↦ none
  ]

  safe_headers-header_fields : (hs : List (List ℕ × List ℕ)) → safe_headers (header_fields hs) ≡ hs
  unfolding safe_headers header_fields
  safe_headers-header_fields [] = refl
  safe_headers-header_fields ((k, v) ∷ hs) = ap (λ x. (k, v) ∷ x) (safe_headers-header_fields hs)

  -- what is stored is read back
  deserialize_content-serialize :
      (c : Content)
      → loads (dumps (blob_of c)) ≡ some (blob_of c)
      → b64decode (b64encode c.body) ≡ some c.body
      → deserialize_content (serialize c) ≡ some c
  unfolding deserialize_content serialize read_fields read_body get headers_of body_of is_version
  deserialize_content-serialize c reads decodes =
      rw (deserialize_content, reads, read_body, decodes, safe_headers-header_fields c.headers) refl

  abbrev pub stored_codec : Codec
  stored_codec = record {
    Content = Content;
    Blob = Text;
    size = λ c. length c.body;
    pack = serialize;
    unpack = deserialize_content;
  }

  -- With idempotency on, where commits succeed and the body is not too large, and where
  -- `json.loads` and the decoding of base 64 take back what was written of the response: a first
  -- call with a key begins the request, and once it is completed, a call with the same key and
  -- digest answers with the status, the headers and the body of that response, until the record
  -- expires.
  pub response_replayed :
      (c : Settings) (client x : ℕ) (xs endpoint : List ℕ) (hash now later : ℕ)
      (es : List (Entry stored_codec)) (id : ℕ) (r : Reply stored_codec)
      → loads (dumps (blob_of r.content)) ≡ some (blob_of r.content)
      → b64decode (b64encode r.content.body) ≡ some r.content.body
      → c.enabled ≡ true
      → find stored_codec client (x ∷ xs) es ≡ none
      → length r.content.body ≤ max c.max_response_bytes 1
      → later ≤ now + life c
      → let first =
          start_or_replay stored_codec c client
            (some (x ∷ xs))
            endpoint
            hash
            now
            (table stored_codec es id) in
        (first.0 ≡ some (ok (some id, none)))
        × ((start_or_replay stored_codec c client
              (some (x ∷ xs))
              endpoint
              hash
              later
              (complete stored_codec c (some id) r first.1)).0
            ≡ some (ok (none, some r)))
  response_replayed c client x xs endpoint hash now later es id r reads decodes =
      replayed stored_codec c client x xs endpoint hash now later es id r
        (deserialize_content-serialize r.content reads decodes)
