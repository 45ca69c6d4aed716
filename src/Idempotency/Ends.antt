-- ===== src/Idempotency/Ends.antt =====
-- app/core/idempotency.py: a call of `start_or_replay` always ends.
use fcam_gateway.Prelude.{
  ℕ, suc, ◌≡◌, refl, true, false, Bool, ◌&&◌, not, Option, none, some, List, [], ◌∷◌, arith,
  Bool-cases, Option-cases, inl, inr, ◌==◌, is_some, if-elim, if◌then◌else◌,
}
use fcam_gateway.Models.{ok, raise, Code}
use fcam_gateway.Idempotency.{
  Codec, Settings, Entry, Store, Begun, write, is_expired, is_of, unexpired, find, remove, cleanup,
  meet, begin, start_or_replay, is_required,
}

module _ (C : Codec) where
  find-remove :
      (client : ℕ) (key : List ℕ) (es : List (Entry C))
      → find C client key (remove C client key es) ≡ none
  unfolding find remove
  find-remove client key [] = refl
  find-remove client key (e ∷ es) = elim (Bool-cases (is_of C client key e)) [
    | inl h ↦ rw h (find-remove client key es)
    | inr h ↦ rw (h, h) (find-remove client key es)
  ]

  pub find-unexpired :
      (client now : ℕ) (key : List ℕ) (es : List (Entry C))
      → find C client key es ≡ none
      → find C client key (unexpired C client now es) ≡ none
  unfolding find unexpired
  find-unexpired client now key [] h = refl
  find-unexpired client now key (e ∷ es) h = elim (Bool-cases (is_of C client key e)) [
    | inl m ↦ cc (rw m at h)
    | inr m ↦ elim (Bool-cases (e.client_id == client && is_expired C now e)) [
      | inl x ↦ rw x (find-unexpired client now key es (rw m at h))
      | inr x ↦ rw (x, m) (find-unexpired client now key es (rw m at h))
    ]
  ]

  -- a write succeeds or leaves the rows
  write-find :
      (client : ℕ) (key : List ℕ) (s : Store C) (es : List (Entry C))
      → find C client key es ≡ none
      → (write C s es).0 ≡ true
      → find C client key (write C s es).1.entries ≡ none
  unfolding write
  write-find client key s es h w = ground (arith, h, w)

  cleanup-find :
      (client now : ℕ) (key : List ℕ) (s : Store C)
      → find C client key s.entries ≡ none
      → find C client key (cleanup C client now s).entries ≡ none
  unfolding cleanup write
  cleanup-find client now key s h = ground (arith, h, find-unexpired client now key s.entries h)

  either_some : (b : Bool) (x y : Begun C) → is_some (if b then some x else some y) ≡ true
  either_some true x y = refl
  either_some false x y = refl

  -- with no row in the way, the answer is at hand
  begin-free :
      (n : ℕ) (c : Settings) (client : ℕ) (key : List ℕ) (hash now : ℕ) (s : Store C)
      → find C client key s.entries ≡ none
      → is_some (begin C (suc n) c client key hash now s).0 ≡ true
  unfolding begin
  begin-free n c client key hash now s h =
      rw (begin, cleanup-find client now key s h) (either_some _ _ _)

  begin-some :
      (c : Settings) (client : ℕ) (key : List ℕ) (hash now : ℕ) (s : Store C)
      → is_some (begin C 2 c client key hash now s).0 ≡ true
  unfolding begin
  begin-some c client key hash now s = elim (Option-cases (find C client key s1.entries)) [
    | inl e ↦ rw (begin, e) (either_some _ _ _)
    | inr (row, e) ↦ elim (Option-cases (meet C c hash now row)) [
      | inr (a, m) ↦ rw (begin, e, m) refl
      | inl m ↦ elim (Bool-cases (write C s1 (remove C client key s1.entries)).0) [
        | inr w ↦ rw (begin, e, m, w) refl
        | inl w ↦
            rw (begin, e, m, w)
              (begin-free 0 c client key hash now (write C s1 (remove C client key s1.entries)).1 (
                write-find client key s1 (remove C client key s1.entries)
                  (find-remove client key s1.entries) w))
      ]
    ]
  ]
    where
      s1 : Store C
      s1 = cleanup C client now s

  -- Whatever rows and commits there are, a call of `start_or_replay` comes to an end: it calls itself
  -- once at most.
  pub start_or_replay-some :
      (c : Settings) (client : ℕ) (key : Option (List ℕ)) (endpoint : List ℕ) (hash now : ℕ)
      (s : Store C)
      → is_some (start_or_replay C c client key endpoint hash now s).0 ≡ true
  unfolding start_or_replay
  start_or_replay-some c client key endpoint hash now s = if-elim P (not c.enabled) refl (go key)
    where
      P : Option (Begun C) × Store C → Type 0
      P r = is_some r.0 ≡ true

      required : Option (Begun C)
      required =
          if is_required endpoint c.require_on
          then some (raise 400 Code.idempotency_key_required)
          else some (ok (none, none))

      without : is_some required ≡ true
      without =
          if-elim (λ (o : Option (Begun C)). is_some o ≡ true) (is_required endpoint c.require_on)
            refl refl

      go :
          (k : Option (List ℕ))
          → P (elim k [
            | none ↦ (required, s)
            | some k ↦ elim k [
              | [] ↦ (required, s)
              | x ∷ xs ↦ begin C 2 c client (x ∷ xs) hash now s
            ]
          ])
      go none = without
      go (some []) = without
      go (some (x ∷ xs)) = begin-some c client (x ∷ xs) hash now s
