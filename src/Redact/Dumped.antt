-- ===== src/Redact/Dumped.antt =====
-- What `_dump_error_details` of app/middleware.py writes.
use fcam_gateway.Prelude.{
  ℕ, zero, suc, ◌*◌, ◌/◌, ◌≤◌, ◌≡◌, ap, true, Option, none, some, List, arith, length, leb, take,
  Bool-cases, inl, inr, if◌then◌else◌, min,
}
use fcam_gateway.Prelude.Text.{codes}
use fcam_gateway.Redact.{
  Json, text, object, Fields, Patterns, Printer, redact_data, redact_fields, default_sensitive,
  max_chars, joined, one_field, truncated, base, Previewed, written, too_long, failed, previewed,
  without_preview, shortened, dump_safe, dump_error_details,
}
use fcam_gateway.Redact.Agree.{AgreeFields, fields_alike}

-- a text of at most 2000 characters, or none
abbrev pub Fits : Option (List ℕ) → Type 0
Fits none = Unit
Fits (some t) = length t ≤ max_chars

abbrev PreviewFits : Previewed → Type 0
PreviewFits (written t) = length t ≤ max_chars
PreviewFits too_long = Unit
PreviewFits failed = Unit

short_fits : (t : List ℕ) → leb (length t) max_chars ≡ true → length t ≤ max_chars
short_fits t h = ground (arith, h)

module _ (p : Printer) where
  previewed-PreviewFits :
      (n : ℕ) (b : Fields) (s : List ℕ) (len : ℕ) → PreviewFits (previewed p n b s len)
  unfolding previewed
  previewed-PreviewFits zero b s len = tt
  previewed-PreviewFits (suc n) b s len =
      go (p.dumps (object (joined b (one_field (codes "preview") (text (take len s))))))
        (previewed-PreviewFits n b s (len * 3 / 5))
    where
      go :
          (o : Option (List ℕ))
          → PreviewFits (previewed p n b s (len * 3 / 5))
          → PreviewFits (elim o as (λ x. Previewed) [
            | none ↦ failed
            | some dumped ↦
                if leb (length dumped) max_chars
                then written dumped
                else previewed p n b s (len * 3 / 5)
          ])
      go none rest = tt
      go (some t) rest = elim (Bool-cases (leb (length t) max_chars)) [
        | inl e ↦ rw e (short_fits t e)
        | inr e ↦ rw e rest
      ]

  module _ (least : Fits (p.dumps truncated)) where
    without_preview-Fits : (b : Fields) → Fits (without_preview p b)
    unfolding without_preview
    without_preview-Fits b = go (p.dumps (object b))
      where
        go :
            (o : Option (List ℕ))
            → Fits (elim o as (λ x. Option (List ℕ)) [
              | none ↦ none
              | some plain ↦ if leb (length plain) max_chars then some plain else p.dumps truncated
            ])
        go none = tt
        go (some t) = elim (Bool-cases (leb (length t) max_chars)) [
          | inl e ↦ rw e (short_fits t e)
          | inr e ↦ rw e least
        ]

    shortened-Fits : (safe : Json) (s : List ℕ) → Fits (shortened p safe s)
    unfolding shortened
    shortened-Fits safe s =
        go (previewed p 5 (base p safe) s (min (length s) max_chars))
          (previewed-PreviewFits 5 (base p safe) s (min (length s) max_chars))
      where
        go :
            (o : Previewed)
            → PreviewFits o
            → Fits (elim o as (λ x. Option (List ℕ)) [
              | written dumped ↦ some dumped
              | failed ↦ none
              | too_long ↦ without_preview p (base p safe)
            ])
        go (written t) h = h
        go too_long h = without_preview-Fits (base p safe)
        go failed h = tt

    dump_safe-Fits : (safe : Json) → Fits (dump_safe p safe)
    unfolding dump_safe
    dump_safe-Fits safe = go (p.dumps safe)
      where
        go :
            (o : Option (List ℕ))
            → Fits (elim o as (λ x. Option (List ℕ)) [
              | none ↦ none
              | some s ↦ if leb (length s) max_chars then some s else shortened p safe s
            ])
        go none = tt
        go (some t) = elim (Bool-cases (leb (length t) max_chars)) [
          | inl e ↦ rw e (short_fits t e)
          | inr e ↦ rw e (shortened-Fits safe t)
        ]

  -- The details that are written do not depend on what they are to hide: two mappings that differ,
  -- at any depth, in values of sensitive keys and in what the two patterns hide of texts, alone, are
  -- written as the same text or both not at all. The text has at most 2000 characters, if that of the
  -- mapping with nothing but the mark of a cut has no more.
  pub details_hide :
      (r : Patterns) (fs gs : Fields)
      → Fits (p.dumps truncated)
      → AgreeFields r default_sensitive fs gs
      → (dump_error_details p r (object fs) ≡ dump_error_details p r (object gs))
        × Fits (dump_error_details p r (object fs))
  unfolding dump_error_details redact_data
  details_hide r fs gs least d = (
    ap (λ (x : Fields). dump_safe p (object x)) (fields_alike r default_sensitive fs gs d),
    dump_safe-Fits least (object (redact_fields r default_sensitive fs)),
  )
