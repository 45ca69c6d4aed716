-- ===== src/Middleware/Body.antt =====
-- Reading a body in `RequestLimitsMiddleware` of app/middleware.py: chunk by chunk, and as a whole.
use mathlib.Core.List.{append_assoc, append-nil}
use fcam_gateway.Prelude.{
  ℕ, ◌+◌, ◌≤◌, ◌≡◌, refl, sym, ◌∙◌, ap, true, false, List, [], ◌∷◌, ◌++◌, length, length-append,
  ltb, Bool-cases, inl, inr, arith, if◌then◌else◌,
}
use fcam_gateway.Models.{Result, ok, raise, Code}
use fcam_gateway.Middleware.{joined, read_stream, read_whole}

joined-snoc :
    (kept : List (List ℕ)) (c rest : List ℕ)
    → joined (kept ++ c ∷ []) ++ rest ≡ joined kept ++ (c ++ rest)
unfolding joined
joined-snoc [] c rest = ap (λ l. l ++ rest) (append-nil c)
joined-snoc (k ∷ kept) c rest =
    append_assoc k (joined (kept ++ c ∷ [])) rest
    ∙ ap (λ l. k ++ l) (joined-snoc kept c rest)
    ∙ sym (append_assoc k (joined kept) (c ++ rest))

length-joined :
    (kept : List (List ℕ)) (c : List ℕ)
    → length (joined (kept ++ c ∷ [])) ≡ length (joined kept) + length c
unfolding joined
length-joined [] c = omega (arith, length-append c [])
length-joined (k ∷ kept) c = omega (
  arith,
  length-append k (joined (kept ++ c ∷ [])),
  length-append k (joined kept),
  length-joined kept c,
)

-- a body, where it is within the limit
abbrev pub limited : ℕ → List ℕ → Result (List ℕ)
limited max_b body = if ltb max_b (length body) then raise 413 Code.request_too_large else ok body

within : (max_b : ℕ) (body : List ℕ) → length body ≤ max_b → limited max_b body ≡ ok body
within max_b body h = let e : ltb max_b (length body) ≡ false = ground arith in rw e refl

beyond :
    (max_b : ℕ) (body : List ℕ)
    → max_b + 1 ≤ length body
    → limited max_b body ≡ raise 413 Code.request_too_large
beyond max_b body h = let e : ltb max_b (length body) ≡ true = ground arith in rw e refl

stream_limited :
    (max_b total : ℕ) (kept chunks : List (List ℕ))
    → total ≡ length (joined kept)
    → total ≤ max_b
    → read_stream max_b total kept chunks ≡ limited max_b (joined kept ++ joined chunks)
unfolding read_stream joined
stream_limited max_b total kept [] e h = sym (
    ap (limited max_b) (append-nil (joined kept))
    ∙ within max_b (joined kept) (omega (arith, e, h)))
stream_limited max_b total kept ([] ∷ chunks) e h = stream_limited max_b total kept chunks e h
stream_limited max_b total kept ((b ∷ bs) ∷ chunks) e h =
    let rest = stream_limited max_b (total + length (b ∷ bs)) (kept ++ (b ∷ bs) ∷ []) chunks in
    elim (Bool-cases (ltb max_b (total + length (b ∷ bs)))) [
      | inl t ↦ rw t (
          sym (
            beyond max_b (joined kept ++ ((b ∷ bs) ++ joined chunks)) (
              ground (
                arith,
                e,
                t,
                length-append (joined kept) ((b ∷ bs) ++ joined chunks),
                length-append bs (joined chunks),
              ))))
      | inr t ↦ rw t (
          rest (ground (arith, e, length-joined kept (b ∷ bs))) (ground (arith, t))
          ∙ ap (limited max_b) (joined-snoc kept (b ∷ bs) (joined chunks)))
    ]

-- Reading a body chunk by chunk, with the count checked at every chunk, comes to the same as reading
-- it as a whole and measuring it then: the same body, or the same refusal.
pub read_stream-read_whole :
    (max_b : ℕ) (chunks : List (List ℕ)) → read_stream max_b 0 [] chunks ≡ read_whole max_b chunks
unfolding read_whole
read_stream-read_whole max_b chunks = stream_limited max_b 0 [] chunks refl (omega arith)
