-- ===== src/Redact.antt =====
-- app/core/redact.py, and `_dump_error_details` of app/middleware.py, which shortens what it hides.
--
-- Values are those of JSON, with natural numbers, and such as `json.dumps` refuses; keys are ASCII.
-- The substitutions of the two regular expressions, `json.dumps` and `str` are arguments.
pub mod Agree
pub mod Dumped
pub mod Written
use fcam_gateway.Prelude.{
  ℕ, zero, suc, ◌*◌, ◌/◌, Bool, true, false, Option, none, some, List, [], ◌∷◌, leb, ltb, min,
  if◌then◌else◌, length, take,
}
use fcam_gateway.Prelude.Text.{codes, same, one_of, lower}

mutual
  pub data Json : Type 0 where
    null : Json
    flag : Bool → Json
    number : ℕ → Json
    text : List ℕ → Json
    items : Items → Json
    object : Fields → Json
    -- a value of another type
    opaque : ℕ → Json

  pub data Items : Type 0 where
    no_items : Items
    item : Json → Items → Items

  pub data Fields : Type 0 where
    no_fields : Fields
    field : List ℕ → Json → Fields → Fields

-- `_BEARER_RE.sub` and `_FIRECRAWL_KEY_RE.sub` with their replacements
pub record Patterns : Type 0 where
  pub hide_bearer : List ℕ → List ℕ
  pub hide_key : List ℕ → List ℕ

unfoldable pub redact_text : Patterns → List ℕ → List ℕ
redact_text r s = r.hide_key (r.hide_bearer s)

-- `REDACTED`
abbrev pub redacted : Json
redacted = text (codes "[REDACTED]")

module _ (r : Patterns) (is_sensitive : List ℕ → Bool) where
  -- `redact_data`, over the lists and the mappings in a value too; a key is in lower case where it
  -- is compared
  unfoldable mutual
    unfolding redact_text lower

    pub redact_data : Json → Json
    redact_data (object fs) = object (redact_fields fs)
    redact_data (items xs) = items (redact_items xs)
    redact_data (text s) = text (redact_text r s)
    redact_data v = v

    pub redact_items : Items → Items
    redact_items no_items = no_items
    redact_items (item v xs) = item (redact_data v) (redact_items xs)

    pub redact_fields : Fields → Fields
    redact_fields no_fields = no_fields
    redact_fields (field k v fs) =
        let inner = redact_data v in
        field k (if is_sensitive (lower k) then redacted else inner) (redact_fields fs)

-- `_DEFAULT_SENSITIVE_KEYS`
unfoldable pub default_sensitive : List ℕ → Bool
unfolding one_of
default_sensitive =
    one_of ("authorization" ∷ "api_key" ∷ "token" ∷ "password" ∷ "secret" ∷ "master_key" ∷ [])

-- `_MAX_ERROR_DETAILS_CHARS`
abbrev pub max_chars : ℕ
max_chars = 2000

-- `fields.get(key)`, where the key is there
unfoldable pub get : List ℕ → Fields → Option Json
get key no_fields = none
get key (field k v fs) = let rest = get key fs in if same k key then some v else rest

-- fields at the end of others
unfoldable pub joined : Fields → Fields → Fields
joined no_fields gs = gs
joined (field k v fs) gs = field k v (joined fs gs)

abbrev pub one_field : List ℕ → Json → Fields
one_field k v = field k v no_fields

abbrev pub code_field : Option Json → Fields
code_field none = no_fields
code_field (some v) = one_field (codes "code") v

-- `{"truncated": True}`
abbrev pub truncated : Json
truncated = object (one_field (codes "truncated") (flag true))

-- the text of a message cut to 400 characters, and the mark that it was
unfoldable pub cut_message : List ℕ → Fields × Fields
cut_message s =
    if ltb 400 (length s)
    then (
      one_field (codes "message") (text (take 400 s)),
      one_field (codes "message_truncated") (flag true),
    )
    else (one_field (codes "message") (text s), no_fields)

-- `json.dumps`, nothing where it raises, and `str`
pub record Printer : Type 0 where
  pub dumps : Json → Option (List ℕ)
  pub str : Json → List ℕ

-- what comes of the previews
pub data Previewed : Type 0 where
  written : List ℕ → Previewed
  too_long failed : Previewed

module _ (p : Printer) where
  -- `msg_text`
  unfoldable pub as_text : Json → List ℕ
  as_text (text s) = s
  as_text v = elim (p.dumps v) [ none ↦ p.str v | some s ↦ s ]

  -- the message in `base`; a null stays
  unfoldable pub short_message : Option Json → Fields × Fields
  unfolding as_text cut_message
  short_message none = (no_fields, no_fields)
  short_message (some null) = (one_field (codes "message") null, no_fields)
  short_message (some v) = cut_message (as_text v)

  -- `base`
  unfoldable pub base : Json → Fields
  unfolding get joined short_message
  base (object fs) =
      let code = code_field (get (codes "code") fs) in
      let message = short_message (get (codes "message") fs) in
      joined code (joined message.0 (joined (one_field (codes "truncated") (flag true)) message.1))
  base v = one_field (codes "truncated") (flag true)

  -- the loop over shorter and shorter previews; 0.6 is 3 / 5 at the lengths that occur
  unfoldable pub previewed : ℕ → Fields → List ℕ → ℕ → Previewed
  unfolding joined
  previewed zero b s len = too_long
  previewed (suc n) b s len =
      let shorter = previewed n b s (len * 3 / 5) in
      elim (p.dumps (object (joined b (one_field (codes "preview") (text (take len s)))))) [
        | none ↦ failed
        | some dumped ↦ if leb (length dumped) max_chars then written dumped else shorter
      ]

  -- what is written where no preview is short enough
  unfoldable pub without_preview : Fields → Option (List ℕ)
  without_preview b = elim (p.dumps (object b)) [
    | none ↦ none
    | some plain ↦ if leb (length plain) max_chars then some plain else p.dumps truncated
  ]

  -- what is written of a value whose text is too long
  unfoldable pub shortened : Json → List ℕ → Option (List ℕ)
  unfolding base previewed without_preview
  shortened safe s = elim (previewed 5 (base safe) s (min (length s) max_chars)) [
    | written dumped ↦ some dumped
    | failed ↦ none
    | too_long ↦ without_preview (base safe)
  ]

  -- what is written of a value that has been redacted
  unfoldable pub dump_safe : Json → Option (List ℕ)
  unfolding shortened
  dump_safe safe = elim (p.dumps safe) [
    | none ↦ none
    | some s ↦ if leb (length s) max_chars then some s else shortened safe s
  ]

  -- `_dump_error_details`
  unfoldable pub dump_error_details : Patterns → Json → Option (List ℕ)
  unfolding redact_data default_sensitive dump_safe
  dump_error_details r null = none
  dump_error_details r v = dump_safe (redact_data r default_sensitive v)
