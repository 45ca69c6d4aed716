-- ===== src/Idempotency.antt =====
-- app/core/idempotency.py: the records of idempotent requests. The digest of a request, by which
-- `request_hash` is compared, is an argument; how a
-- response is stored is a codec, and Stored is that of the program.
pub mod Ends
pub mod Replay
pub mod Stored
use fcam_gateway.Prelude.{
  ℕ, zero, suc, ◌+◌, ◌-◌, ◌*◌, ◌/◌, ◌≡◌, min, max, Bool, true, false, ◌&&◌, ◌||◌, not, Option, none,
  some, List, [], ◌∷◌, ◌==◌, ltb, if◌then◌else◌,
}
use fcam_gateway.Prelude.Text.{same}
use fcam_gateway.Models.{Result, ok, err, raise, failure_after, Code}

-- the headers and the body of a response, and the JSON text that holds them
pub record Codec : Type 1 where
  pub Content : Type 0
  pub Blob : Type 0
  pub size : Content → ℕ
  pub pack : Content → Blob
  pub unpack : Blob → Option Content

pub data Phase : Type 0 where
  in_progress completed : Phase

-- `config.idempotency`; the names in `require_on` are stripped
pub record Settings : Type 0 where
  pub enabled : Bool
  pub ttl_seconds : ℕ
  pub max_response_bytes : ℕ
  pub require_on : List (List ℕ)

abbrev pub is_required : List ℕ → List (List ℕ) → Bool
is_required endpoint [] = false
is_required endpoint (e ∷ es) = same e endpoint || is_required endpoint es

-- `expires_at`, from now
abbrev pub life : Settings → ℕ
life c = max c.ttl_seconds 1 * 1000000

-- `stale_after`
abbrev pub stale_after : Settings → ℕ
stale_after c = min (max (c.ttl_seconds / 12) 30) 120 * 1000000

module _ (C : Codec) where
  open C use {Content, Blob, size, pack, unpack}

  pub record Reply : Type 0 where
    pub status : ℕ
    pub content : Content

  -- `IdempotencyRecord`
  pub record Entry : Type 0 where
    pub id : ℕ
    pub client_id : ℕ
    pub key : List ℕ
    pub request_hash : ℕ
    pub phase : Phase
    pub response_status_code : Option ℕ
    pub response_body : Option Blob
    pub created_at : ℕ
    pub expires_at : Option ℕ

  -- the table, and the outcomes of the commits to come (an empty list: all succeed)
  pub record Store : Type 0 where
    pub entries : List Entry
    pub next_id : ℕ
    pub commits : List Bool

  -- `db.commit()` with new rows, or the rollback
  unfoldable pub write : Store → List Entry → Bool × Store
  write s entries = elim s.commits [
    | [] ↦ (true, record s { entries = entries })
    | outcome ∷ rest ↦
        (outcome, record s { entries = if outcome then entries else s.entries; commits = rest })
  ]

  abbrev pub is_expired : ℕ → Entry → Bool
  is_expired now e = elim e.expires_at [ none ↦ false | some t ↦ ltb t now ]

  abbrev pub is_of : ℕ → List ℕ → Entry → Bool
  is_of client key e = e.client_id == client && same e.key key

  unfoldable pub unexpired : ℕ → ℕ → List Entry → List Entry
  unexpired client now [] = []
  unexpired client now (e ∷ es) =
      let rest = unexpired client now es in
      if e.client_id == client && is_expired now e then rest else e ∷ rest

  -- the row of the unique pair of client and key
  unfoldable pub find : ℕ → List ℕ → List Entry → Option Entry
  find client key [] = none
  find client key (e ∷ es) =
      let rest = find client key es in if is_of client key e then some e else rest

  -- `db.delete(existing)`: the pair is unique, so it is the row
  unfoldable pub remove : ℕ → List ℕ → List Entry → List Entry
  remove client key [] = []
  remove client key (e ∷ es) =
      let rest = remove client key es in if is_of client key e then rest else e ∷ rest

  -- `_cleanup_expired`
  unfoldable pub cleanup : ℕ → ℕ → Store → Store
  unfolding write unexpired
  cleanup client now s = (write s (unexpired client now s.entries)).1

  -- `_deserialize_response`
  unfoldable pub deserialize : ℕ → Blob → Result Reply
  deserialize status blob = elim (unpack blob) [
    | none ↦ raise 503 Code.db_unavailable
    | some c ↦ ok (record { status = status; content = c })
  ]

  -- the new row
  abbrev pub fresh : Settings → ℕ → List ℕ → ℕ → ℕ → ℕ → Entry
  fresh c client key hash now id = record {
    id = id;
    client_id = client;
    key = key;
    request_hash = hash;
    phase = in_progress;
    response_status_code = none;
    response_body = none;
    created_at = now;
    expires_at = some (now + life c);
  }

  -- the context with the id of its record, and the response to replay
  abbrev pub Begun : Type 0
  Begun = Result (Option ℕ × Option Reply)

  -- what becomes of a row that is in the way: an answer, or the row is deleted and all starts again
  unfoldable pub meet : Settings → ℕ → ℕ → Entry → Option Begun
  unfolding deserialize
  meet c hash now e =
      let busy : Option Begun =
        some (err (failure_after 409 Code.idempotency_in_progress (some 1))) in
      let stale : Option Begun = if ltb (stale_after c) (now - e.created_at) then none else busy in
      let open_case : Option Begun = elim e.phase [ in_progress ↦ stale | completed ↦ busy ] in
      let answer : Option Begun = elim e.phase [
        | in_progress ↦ open_case
        | completed ↦ elim e.response_status_code [
          | none ↦ open_case
          | some status ↦ elim e.response_body [
            | none ↦ open_case
            | some blob ↦ elim (deserialize status blob) [
              | ok r ↦ some (ok (none, some r))
              | err f ↦ some (err f)
            ]
          ]
        ]
      ] in
      if is_expired now e
      then none
      else if not (e.request_hash == hash)
      then some (raise 409 Code.idempotency_key_conflict)
      else answer

  -- `start_or_replay` behind the tests of the key; the calls of itself are on fuel
  unfoldable pub begin : ℕ → Settings → ℕ → List ℕ → ℕ → ℕ → Store → Option Begun × Store
  unfolding cleanup find meet remove write
  begin zero c client key hash now s = (none, s)
  begin (suc n) c client key hash now s =
      let s1 = cleanup client now s in
      let added =
        write (record s1 { next_id = s1.next_id + 1 })
          (fresh c client key hash now s1.next_id ∷ s1.entries) in
      elim (find client key s1.entries) [
        | none ↦ (
          (if added.0
              then some (ok (some s1.next_id, none))
              else some (raise 503 Code.db_unavailable)),
          added.1,
        )
        | some e ↦ elim (meet c hash now e) [
          | some answer ↦ (some answer, s1)
          | none ↦
              let gone = write s1 (remove client key s1.entries) in
              let again = begin n c client key hash now gone.1 in
              if gone.0 then again else (some (raise 503 Code.db_unavailable), gone.1)
        ]
      ]

  -- `start_or_replay`
  unfoldable pub start_or_replay :
      Settings → ℕ → Option (List ℕ) → List ℕ → ℕ → ℕ → Store → Option Begun × Store
  unfolding begin
  start_or_replay c client key endpoint hash now s =
      let without : Option Begun × Store = (
        if is_required endpoint c.require_on
            then some (raise 400 Code.idempotency_key_required)
            else some (ok (none, none)),
        s,
      ) in
      if not c.enabled then (some (ok (none, none)), s) else elim key [
        | none ↦ without
        | some k ↦ elim k [ [] ↦ without | x ∷ xs ↦ begin 2 c client (x ∷ xs) hash now s ]
      ]

  unfoldable pub find_id : ℕ → List Entry → Option Entry
  find_id id [] = none
  find_id id (e ∷ es) = let rest = find_id id es in if e.id == id then some e else rest

  unfoldable pub set_done : ℕ → ℕ → Blob → List Entry → List Entry
  set_done id status blob [] = []
  set_done id status blob (e ∷ es) =
      (if e.id == id
        then record e {
          phase = completed;
          response_status_code = some status;
          response_body = some blob;
        }
        else e)
      ∷ set_done id status blob es

  -- `complete`; a response that is too large to store leaves the record as it is
  unfoldable pub complete : Settings → Option ℕ → Reply → Store → Store
  unfolding find_id set_done write
  complete c none r s = s
  complete c (some id) r s = if not c.enabled then s else elim (find_id id s.entries) [
    | none ↦ s
    | some e ↦
        if ltb (max c.max_response_bytes 1) (size r.content)
        then s
        else (write s (set_done id r.status (pack r.content) s.entries)).1
  ]
