-- ===== src/Idempotency/Replay.antt =====
-- The promise of app/core/idempotency.py: what a second call with the same key meets.
use fcam_gateway.Prelude.{
  ℕ, suc, ◌+◌, ◌-◌, ◌≤◌, ◌≡◌, refl, ◌∙◌, true, false, max, none, some, List, [], ◌∷◌, arith,
  Bool-cases, inl, inr, ◌==◌, ltb, if◌then◌else◌,
}
use fcam_gateway.Prelude.Text.{same, same_refl}
use fcam_gateway.Models.{ok, err, raise, failure_after, Code}
use fcam_gateway.Idempotency.{
  Codec, Settings, completed, Entry, Store, Reply, Begun, write, is_expired, unexpired, find,
  cleanup, deserialize, fresh, life, stale_after, meet, begin, start_or_replay, find_id, set_done,
  complete,
}
use fcam_gateway.Idempotency.Ends.{find-unexpired}

module _ (C : Codec) where
  -- a table whose commits succeed
  abbrev pub table : List (Entry C) → ℕ → Store C
  table es id = record { entries = es; next_id = id; commits = [] }

  begin-new :
      (n : ℕ) (c : Settings) (client : ℕ) (key : List ℕ) (hash now : ℕ) (es : List (Entry C))
      (id : ℕ)
      → find C client key es ≡ none
      → begin C (suc n) c client key hash now (table es id) ≡ (
        some (ok (some id, none)),
        table (fresh C c client key hash now id ∷ unexpired C client now es) (id + 1),
      )
  unfolding begin cleanup write
  begin-new n c client key hash now es id h = rw (find-unexpired C client now key es h) refl

  find-first :
      (client : ℕ) (key : List ℕ) (now : ℕ) (e : Entry C) (es : List (Entry C))
      → e.client_id ≡ client
      → e.key ≡ key
      → is_expired C now e ≡ false
      → find C client key (unexpired C client now (e ∷ es)) ≡ some e
  unfolding find unexpired
  find-first client key now e es i k x =
      let t : (e.client_id == client) ≡ true = ground (arith, i) in
      let u : same e.key key ≡ true = rw k (same_refl key) in ground (arith, t, u, x)

  -- a row of the pair, first in the table and not expired, is what is met
  begin-meet :
      (n : ℕ) (c : Settings) (client : ℕ) (key : List ℕ) (hash now : ℕ) (e : Entry C)
      (es : List (Entry C)) (id : ℕ) (a : Begun C)
      → e.client_id ≡ client
      → e.key ≡ key
      → is_expired C now e ≡ false
      → meet C c hash now e ≡ some a
      → (begin C (suc n) c client key hash now (table (e ∷ es) id)).0 ≡ some a
  unfolding begin cleanup write
  begin-meet n c client key hash now e es id a i k x m =
      rw (begin, find-first client key now e es i k x, m) refl

  -- the row of a response that is stored
  abbrev stored : Settings → ℕ → List ℕ → ℕ → ℕ → ℕ → Reply C → Entry C
  stored c client key hash now id r = record (fresh C c client key hash now id) {
    phase = completed;
    response_status_code = some r.status;
    response_body = some (C.pack r.content);
  }

  complete-first :
      (c : Settings) (client : ℕ) (key : List ℕ) (hash now id next : ℕ) (es : List (Entry C))
      (r : Reply C)
      → c.enabled ≡ true
      → C.size r.content ≤ max c.max_response_bytes 1
      → complete C c (some id) r (table (fresh C c client key hash now id ∷ es) next)
        ≡ table
            (stored c client key hash now id r ∷ set_done C id r.status (C.pack r.content) es)
            next
  unfolding complete find_id set_done write
  complete-first c client key hash now id next es r on small =
      let t : (id == id) ≡ true = ground arith in
      let u : ltb (max c.max_response_bytes 1) (C.size r.content) ≡ false = ground (arith, small) in
      rw (on, t, u) (rw t refl)

  meet-stored :
      (c : Settings) (client : ℕ) (key : List ℕ) (hash now later id : ℕ) (r : Reply C)
      → C.unpack (C.pack r.content) ≡ some r.content
      → later ≤ now + life c
      → meet C c hash later (stored c client key hash now id r) ≡ some (ok (none, some r))
  unfolding meet deserialize
  meet-stored c client key hash now later id r reads h =
      let t : (hash == hash) ≡ true = ground arith in
      let u : ltb (now + life c) later ≡ false = ground (arith, h) in rw (t, u, reads) refl

  start-begin :
      (c : Settings) (client x : ℕ) (xs endpoint : List ℕ) (hash now : ℕ) (s : Store C)
      → c.enabled ≡ true
      → start_or_replay C c client (some (x ∷ xs)) endpoint hash now s
        ≡ begin C 2 c client (x ∷ xs) hash now s
  unfolding start_or_replay
  start-begin c client x xs endpoint hash now s on = simp on refl

  start-new :
      (c : Settings) (client x : ℕ) (xs endpoint : List ℕ) (hash now : ℕ) (es : List (Entry C))
      (id : ℕ)
      → c.enabled ≡ true
      → find C client (x ∷ xs) es ≡ none
      → start_or_replay C c client (some (x ∷ xs)) endpoint hash now (table es id) ≡ (
        some (ok (some id, none)),
        table (fresh C c client (x ∷ xs) hash now id ∷ unexpired C client now es) (id + 1),
      )
  start-new c client x xs endpoint hash now es id on free =
      start-begin c client x xs endpoint hash now (table es id) on
      ∙ begin-new 1 c client (x ∷ xs) hash now es id free

  -- With idempotency on, where commits succeed, the response is not too large and is read back as
  -- it was stored: a first call with a key begins the request, and once it is completed, a call with
  -- the same key and digest answers with that very response, until the record expires.
  pub replayed :
      (c : Settings) (client x : ℕ) (xs endpoint : List ℕ) (hash now later : ℕ)
      (es : List (Entry C)) (id : ℕ) (r : Reply C)
      → C.unpack (C.pack r.content) ≡ some r.content
      → c.enabled ≡ true
      → find C client (x ∷ xs) es ≡ none
      → C.size r.content ≤ max c.max_response_bytes 1
      → later ≤ now + life c
      → let first = start_or_replay C c client (some (x ∷ xs)) endpoint hash now (table es id) in
        (first.0 ≡ some (ok (some id, none)))
        × ((start_or_replay C c client
              (some (x ∷ xs))
              endpoint
              hash
              later
              (complete C c (some id) r first.1)).0
            ≡ some (ok (none, some r)))
  replayed c client x xs endpoint hash now later es id r reads on free small h =
      let key = x ∷ xs in
      rw
        (
          start-new c client x xs endpoint hash now es id on free,
          complete-first c client key hash now id (id + 1) (unexpired C client now es) r on small,
          start-begin c client x xs endpoint hash later
              (table
                (stored c client key hash now id r
                  ∷ set_done C id r.status (C.pack r.content) (unexpired C client now es))
                (id + 1))
              on,
        )
        (
          refl,
          begin-meet 1 c client key hash later (stored c client key hash now id r) _ (id + 1) _ refl
              refl (ground (arith, h)) (meet-stored c client key hash now later id r reads h),
        )

  meet-fresh :
      (c : Settings) (client : ℕ) (key : List ℕ) (hash other now later id : ℕ)
      → later ≤ now + life c
      → later ≤ now + stale_after c
      → meet C c other later (fresh C c client key hash now id)
        ≡ some (
            if hash == other
            then err (failure_after 409 Code.idempotency_in_progress (some 1))
            else raise 409 Code.idempotency_key_conflict)
  unfolding meet
  meet-fresh c client key hash other now later id h k =
      let u : ltb (now + life c) later ≡ false = ground (arith, h) in
      let v : ltb (stale_after c) (later - now) ≡ false = ground (arith, k) in
      elim (Bool-cases (hash == other)) [ inl e ↦ rw (u, v, e) refl | inr e ↦ rw (u, v, e) refl ]

  -- With idempotency on, and where commits succeed: while a request with a key is in progress, not expired and not stale, a
  -- second call with the key does not begin it again. It is refused, as in progress for the same
  -- digest and as a conflict for another one.
  pub second_call_refused :
      (c : Settings) (client x : ℕ) (xs endpoint : List ℕ) (hash other now later : ℕ)
      (es : List (Entry C)) (id : ℕ)
      → c.enabled ≡ true
      → find C client (x ∷ xs) es ≡ none
      → later ≤ now + life c
      → later ≤ now + stale_after c
      → let first = start_or_replay C c client (some (x ∷ xs)) endpoint hash now (table es id) in
        (start_or_replay C c client (some (x ∷ xs)) endpoint other later first.1).0
        ≡ some (
            if hash == other
            then err (failure_after 409 Code.idempotency_in_progress (some 1))
            else raise 409 Code.idempotency_key_conflict)
  second_call_refused c client x xs endpoint hash other now later es id on free h k =
      let key = x ∷ xs in
      rw
        (
          start-new c client x xs endpoint hash now es id on free,
          start-begin c client x xs endpoint other later
              (table (fresh C c client key hash now id ∷ unexpired C client now es) (id + 1)) on,
        )
        (begin-meet 1 c client key other later (fresh C c client key hash now id) _ (id + 1) _ refl
          refl (ground (arith, h)) (meet-fresh c client key hash other now later id h k))
