-- ===== src/Middleware/Passed.antt =====
-- What `RequestLimitsMiddleware.dispatch` of app/middleware.py passes on.
use fcam_gateway.Prelude.{
  ℕ, ◌≤◌, ◌≡◌, refl, sym, ◌∙◌, Bool, true, false, ◌&&◌, not, Option, none, some, List, [], ◌∷◌,
  length, ltb, Bool-cases, inl, inr, arith, if◌then◌else◌,
}
use fcam_gateway.Prelude.Text.{codes, contains, one_of}
use fcam_gateway.Models.{Result, ok, err, raise, Code}
use fcam_gateway.Middleware.{
  Limits, Length, absent, malformed, negative, bytes, Inbound, joined, read_whole,
  read_body_limited, path_allowed, is_proxy, length_refused, with_body, dispatch,
}
use fcam_gateway.Middleware.Body.{limited, read_stream-read_whole}

limited_ok :
    (max_b : ℕ) (found body : List ℕ)
    → limited max_b found ≡ ok body
    → (body ≡ found) × (length body ≤ max_b)
limited_ok max_b found body h = elim (Bool-cases (ltb max_b (length found))) [
  | inl e ↦ cc (rw e at h)
  | inr e ↦
      (let found_it : ok found ≡ ok body = rw e at h in
        let same : body ≡ found = cc in (same, rw same (ground (arith, e))))
]

module _ (self : Limits) where
  read_body_limited_lem :
      (chunks : List (List ℕ))
      → read_body_limited self chunks ≡ limited self.max_body_bytes (joined chunks)
  unfolding read_body_limited read_whole
  read_body_limited_lem chunks = elim (Bool-cases self.stream_body_limit) [
    | inl e ↦ rw e (read_stream-read_whole self.max_body_bytes chunks)
    | inr e ↦ rw e refl
  ]

  -- JSON, where the request is to be forwarded
  abbrev pub is_typed : Inbound → Bool
  is_typed q =
      not (is_proxy self q.path && not (contains (codes "application/json") q.content_type))

  with_body-some :
      (q : Inbound) (r : Result (List ℕ)) (body : List ℕ)
      → with_body self q r ≡ ok (some body)
      → (r ≡ ok body) × (is_typed q ≡ true)
  unfolding with_body
  with_body-some q (err f) body h = cc
  with_body-some q (ok []) body h = cc
  with_body-some q (ok (b ∷ bs)) body h =
      elim (Bool-cases
        (is_proxy self q.path && not (contains (codes "application/json") q.content_type))) [
          | inl e ↦ cc (rw e at h)
          | inr e ↦ (cc (rw e at h), rw e refl)
        ]

  not_refused :
      (l : Length) (q : Inbound) (body : List ℕ)
      → let judged : Result (Option (List ℕ)) = elim (length_refused self l) [
        | some refusal ↦ refusal
        | none ↦ with_body self q (read_body_limited self q.chunks)
      ] in
        judged ≡ ok (some body)
        → with_body self q (read_body_limited self q.chunks) ≡ ok (some body)
  unfolding length_refused
  not_refused absent q body h = h
  not_refused malformed q body h = cc
  not_refused negative q body h = h
  not_refused (bytes n) q body h = elim (Bool-cases (ltb self.max_body_bytes n)) [
    | inl e ↦ cc (rw e at h)
    | inr e ↦ rw e at h
  ]

  -- what is true of a request that is passed on with a body
  pub record Admitted (q : Inbound) (body : List ℕ) : Type 0 where
    pub whole : body ≡ joined q.chunks
    pub small : length body ≤ self.max_body_bytes
    pub allowed : path_allowed self q.path ≡ true
    pub typed : is_typed q ≡ true

  unguarded :
      (a g : Bool) (r : Result (Option (List ℕ))) (body : List ℕ)
      → (if not a then raise 404 Code.path_not_allowed else if g then ok none else r)
        ≡ ok (some body)
      → (a ≡ true) × (r ≡ ok (some body))
  unguarded true true r body h = cc
  unguarded true false r body h = (refl, h)
  unguarded false g r body h = cc

  -- A request that is passed on with a body has its whole body, within the limit, goes to a path
  -- that is allowed, and is JSON where it is to be forwarded.
  pub passed-Admitted :
      (q : Inbound) (body : List ℕ) → dispatch self q ≡ ok (some body) → Admitted q body
  unfolding dispatch
  passed-Admitted q body h =
      let through =
        unguarded (path_allowed self q.path) (one_of ("GET" ∷ "HEAD" ∷ []) q.method) _ body h in
      let bodied =
        with_body-some q (read_body_limited self q.chunks) body
          (not_refused q.content_length q body through.1) in
      let read =
        limited_ok self.max_body_bytes (joined q.chunks) body
          (sym (read_body_limited_lem q.chunks) ∙ bodied.0) in
      record { whole = read.0; small = read.1; allowed = through.0; typed = bodied.1 }
