-- ===== src/Redact/Agree.antt =====
-- Values that `redact_data` of app/core/redact.py makes the same.
use fcam_gateway.Prelude.{ℕ, ◌≡◌, refl, ap, Bool, true, List}
use fcam_gateway.Prelude.Text.{lower}
use fcam_gateway.Redact.{
  Json, text, items, object, Items, item, no_items, Fields, field, no_fields, Patterns, redacted,
  redact_text, redact_data, redact_items, redact_fields,
}

-- values that differ in what stands under a sensitive key, and in what the two patterns hide, alone
module _ (r : Patterns) (is_sensitive : List ℕ → Bool) where
  mutual
    pub data Agree : Json → Json → Type 0 where
      same_value : (v : Json) → Agree v v
      same_text :
          (s t : List ℕ)
          → r.hide_key (r.hide_bearer s) ≡ r.hide_key (r.hide_bearer t)
          → Agree (text s) (text t)
      both_items : (xs ys : Items) → AgreeItems xs ys → Agree (items xs) (items ys)
      both_objects : (fs gs : Fields) → AgreeFields fs gs → Agree (object fs) (object gs)

    pub data AgreeItems : Items → Items → Type 0 where
      no_more : AgreeItems no_items no_items
      more :
          (v w : Json) (xs ys : Items)
          → Agree v w
          → AgreeItems xs ys
          → AgreeItems (item v xs) (item w ys)

    pub data AgreeFields : Fields → Fields → Type 0 where
      no_others : AgreeFields no_fields no_fields
      hidden :
          (k : List ℕ) (v w : Json) (fs gs : Fields)
          → is_sensitive (lower k) ≡ true
          → AgreeFields fs gs
          → AgreeFields (field k v fs) (field k w gs)
      shown :
          (k : List ℕ) (v w : Json) (fs gs : Fields)
          → Agree v w
          → AgreeFields fs gs
          → AgreeFields (field k v fs) (field k w gs)

  mutual
    unfolding redact_data redact_items redact_fields redact_text

    pub values_alike :
        (v w : Json) → Agree v w → redact_data r is_sensitive v ≡ redact_data r is_sensitive w
    values_alike v w (same_value _) = refl
    values_alike v w (same_text s t h) = ap text h
    values_alike v w (both_items xs ys d) = ap items (items_alike xs ys d)
    values_alike v w (both_objects fs gs d) = ap object (fields_alike fs gs d)

    pub items_alike :
        (xs ys : Items)
        → AgreeItems xs ys
        → redact_items r is_sensitive xs ≡ redact_items r is_sensitive ys
    items_alike xs ys no_more = refl
    items_alike xs ys (more v w xs' ys' d e) =
        let a = values_alike v w d in let b = items_alike xs' ys' e in cc

    pub fields_alike :
        (fs gs : Fields)
        → AgreeFields fs gs
        → redact_fields r is_sensitive fs ≡ redact_fields r is_sensitive gs
    fields_alike fs gs no_others = refl
    fields_alike fs gs (hidden k v w fs' gs' h d) =
        rw h (ap (field k redacted) (fields_alike fs' gs' d))
    fields_alike fs gs (shown k v w fs' gs' d e) =
        let a = values_alike v w d in let b = fields_alike fs' gs' e in cc
