-- ===== src/Admin/Import.antt =====
-- app/core/key_import.py, which reads a list of keys, and `import_keys_text` of
-- app/api/control_plane.py, which adds them. Digits and white space are those of ASCII, but for the
-- ends of lines. `datetime.fromisoformat` is an argument, and so are the ids that the database gives.
pub mod Ran
pub mod Counts
pub mod Keeps
use text.Mathlib.Text.{◌==◌ as str_eq}
use fcam_gateway.Prelude.{
  ℕ, suc, ◌+◌, Bool, true, false, ◌&&◌, ◌||◌, not, Option, none, some, List, [], ◌∷◌, ◌++◌, ◌==◌,
  if◌then◌else◌, elem, length, ltb, drop, take, map, find_by, update_by,
}
use fcam_gateway.Prelude.Text.{codes, strip, split, isdigit, is_space}
use fcam_gateway.Models.{Status, Result, ok, raise, Code}
use fcam_gateway.Admin.{
  KeyRow, Resource, Store, Db, holds, commit, note, put_key, key_resource, settle,
}
use fcam_gateway.Admin.Keys.{Master, CreateKey, new_row, add_key, is_provider}

-- the ends of lines of `str.splitlines`
abbrev pub is_break : ℕ → Bool
is_break c = elem c (10 ∷ 11 ∷ 12 ∷ 13 ∷ 28 ∷ 29 ∷ 30 ∷ 133 ∷ 8232 ∷ 8233 ∷ [])

-- the lines, behind the characters of the first one; the flag is set behind a carriage return
unfoldable pub lines : Bool → List ℕ → List ℕ → List (List ℕ)
lines cr [] [] = []
lines cr (a ∷ acc) [] = (a ∷ acc) ∷ []
lines cr acc (c ∷ text) =
    let same_end = lines false acc text in
    let next = lines (c == 13) [] text in
    let longer = lines false (acc ++ c ∷ []) text in
    if cr && c == 10 then same_end else if is_break c then acc ∷ next else longer

-- `text.split()`
unfoldable pub words : List ℕ → List ℕ → List (List ℕ)
unfolding is_space
words [] [] = []
words (a ∷ acc) [] = (a ∷ acc) ∷ []
words [] (c ∷ text) =
    let next = words [] text in
    let longer = words (c ∷ []) text in if is_space c then next else longer
words (a ∷ acc) (c ∷ text) =
    let next = words [] text in
    let longer = words (a ∷ acc ++ c ∷ []) text in if is_space c then (a ∷ acc) ∷ next else longer

-- `_split_fields`
unfoldable pub split_fields : List ℕ → List (List ℕ)
unfolding words split strip
split_fields line =
    let parts =
      if elem b'|' line
      then split b'|' line
      else if elem 9 line
      then split 9 line
      else if elem b',' line
      then split b',' line
      else words [] line in
    map strip parts

-- `[p for p in parts if p != ""]`
unfoldable pub non_empty_parts : List (List ℕ) → List (List ℕ)
non_empty_parts [] = []
non_empty_parts ([] ∷ ps) = non_empty_parts ps
non_empty_parts ((c ∷ cs) ∷ ps) = (c ∷ cs) ∷ non_empty_parts ps

-- `_DATE_ONLY_RE`
unfoldable pub is_date_only : List ℕ → Bool
unfolding isdigit
is_date_only s =
    length s == 10
    && isdigit (take 4 s)
    && isdigit (take 2 (drop 5 s))
    && isdigit (drop 8 s)
    && elem b'-' (take 1 (drop 4 s))
    && elem b'-' (take 1 (drop 7 s))

-- `s.endswith("Z")`, with what stands before it
unfoldable pub before_z : List ℕ → Option (List ℕ)
before_z [] = none
before_z (c ∷ []) = if c == b'Z' then some [] else none
before_z (c ∷ d ∷ cs) = elim (before_z (d ∷ cs)) [ none ↦ none | some s ↦ some (c ∷ s) ]

-- `s.replace(" ", "T", 1)`
unfoldable pub first_space : List ℕ → List ℕ
first_space [] = []
first_space (c ∷ cs) = let rest = first_space cs in if c == 32 then b'T' ∷ cs else c ∷ rest

-- the text that `_parse_datetime_utc` hands to `fromisoformat`; nothing where it is empty
unfoldable pub iso_text : List ℕ → Option (List ℕ)
unfolding is_date_only before_z first_space
iso_text [] = none
iso_text (c ∷ cs) =
    let s = c ∷ cs in
    if is_date_only s then some (s ++ codes "T00:00:00+00:00") else elim (before_z s) [
      | some front ↦ some (front ++ codes "+00:00")
      | none ↦
          if elem 32 s && not (elem b'T' s) && not (elem b'+' s)
          then some (first_space s)
          else some s
    ]

-- `ParsedKeyLine`
pub record ParsedKeyLine : Type 0 where
  pub line_no : ℕ
  pub api_key : List ℕ
  pub account_username : Option (List ℕ)
  pub account_password : Option (List ℕ)
  pub account_verified_at : Option ℕ

-- `(value or "").strip() or None`
unfoldable pub trimmed : Option (List ℕ) → Option (List ℕ)
unfolding strip
trimmed none = none
trimmed (some text) = elim (strip text) [ [] ↦ none | c ∷ cs ↦ some (c ∷ cs) ]

-- from the fields of a line on; nothing where the key is too short
unfoldable pub parsed :
    ℕ → List ℕ → Option (List ℕ) → Option (List ℕ) → Option ℕ → Option ParsedKeyLine
unfolding trimmed strip
parsed n key username password verified =
    if ltb (length (strip key)) 8
    then none
    else some (record {
      line_no = n;
      api_key = strip key;
      account_username = trimmed username;
      account_password = trimmed password;
      account_verified_at = verified;
    })

-- what a line comes to: nothing to do, an item, or a failure
pub data Line : Type 0 where
  skipped_line failed_line : Line
  item_line : ParsedKeyLine → Line

module _ (from_iso : List ℕ → Option ℕ) where
  -- `_parse_datetime_utc`
  unfoldable pub parse_datetime_utc : List ℕ → Option ℕ
  unfolding iso_text strip
  parse_datetime_utc raw = elim (iso_text (strip raw)) [ none ↦ none | some s ↦ from_iso s ]

  -- the fields of a line, by their number
  unfoldable pub parse_parts : ℕ → List (List ℕ) → Option ParsedKeyLine
  unfolding parsed parse_datetime_utc
  parse_parts n (key ∷ []) = parsed n key none none none
  parse_parts n (name ∷ key ∷ []) = parsed n key (some name) none none
  parse_parts n (name ∷ password ∷ key ∷ []) = parsed n key (some name) (some password) none
  parse_parts n (name ∷ password ∷ key ∷ date ∷ []) = elim (parse_datetime_utc date) [
    | none ↦ none
    | some t ↦ parsed n key (some name) (some password) (some t)
  ]
  parse_parts n _ = none

  unfoldable pub parse_line : ℕ → List ℕ → Line
  unfolding parse_parts non_empty_parts split_fields strip
  parse_line n raw = elim (strip raw) [
    | [] ↦ skipped_line
    | c ∷ cs ↦
        if c == b'#'
        then skipped_line
        else elim (parse_parts n (non_empty_parts (split_fields (c ∷ cs)))) [
          | none ↦ failed_line
          | some item ↦ item_line item
        ]
  ]

  -- the loop of `parse_keys_text` from a line on: the items, and the numbers of the failed lines
  unfoldable pub parse_lines : ℕ → List (List ℕ) → List ParsedKeyLine × List ℕ
  unfolding parse_line
  parse_lines n [] = ([], [])
  parse_lines n (raw ∷ raws) =
      let rest = parse_lines (suc n) raws in
      elim (parse_line n raw) [
        | skipped_line ↦ rest
        | failed_line ↦ (rest.0, n ∷ rest.1)
        | item_line item ↦ (item ∷ rest.0, rest.1)
      ]

  -- `parse_keys_text`
  unfoldable pub parse_keys_text : List ℕ → List ParsedKeyLine × List ℕ
  unfolding parse_lines lines
  parse_keys_text text = parse_lines 1 (lines false [] text)

-- the answer: the counts, with the numbers of the failed lines
pub record Imported : Type 0 where
  pub created : ℕ
  pub updated : ℕ
  pub skipped : ℕ
  pub failures : List ℕ

abbrev pub has_hash : ℕ → KeyRow → Bool
has_hash h k = k.hash == h

-- `not existing.account_username`
abbrev pub is_blank : Option (List ℕ) → Bool
is_blank none = true
is_blank (some []) = true
is_blank (some (c ∷ cs)) = false

abbrev pub or_keep {ℓ} : {A : Type ℓ} → Option A → Option A → Option A
or_keep (some a) new = some a
or_keep none new = new

-- the account's columns that a row lacks and the item has
unfoldable pub filled : Master → ParsedKeyLine → KeyRow → KeyRow
filled m i k = record k {
  account_username = elim i.account_username [
    | none ↦ k.account_username
    | some u ↦ if is_blank k.account_username then some u else k.account_username
  ];
  account_password =
      or_keep k.account_password
        (elim i.account_password [ none ↦ none | some p ↦ some (m.encrypt p) ]);
  account_verified_at = or_keep k.account_verified_at i.account_verified_at;
}

abbrev pub lacks {ℓ κ} : {A : Type ℓ} {B : Type κ} → Option A → Option B → Bool
lacks (some a) none = true
lacks (some a) (some b) = false
lacks none o = false

-- `changed`
unfoldable pub is_filled : ParsedKeyLine → KeyRow → Bool
is_filled i k =
    (elim i.account_username [ none ↦ false | some u ↦ is_blank k.account_username ])
    || lacks i.account_password k.account_password
    || lacks i.account_verified_at k.account_verified_at

-- `ImportKeysTextRequest` without its text has the columns of `CreateKeyRequest`; the key and the
-- account come from the line
unfoldable pub imported_row : Master → ℕ → ℕ → CreateKey → ParsedKeyLine → KeyRow
unfolding new_row
imported_row m today id p i =
    record (new_row m today id (record p { api_key = i.api_key; name = none })) {
      account_username = i.account_username;
      account_password = elim i.account_password [ none ↦ none | some t ↦ some (m.encrypt t) ];
      account_verified_at = i.account_verified_at;
    }

module _ (m : Master) (today : ℕ) (ids : ℕ → ℕ) (p : CreateKey) where
  -- the savepoint that an `IntegrityError` of the first one leads to
  unfoldable pub import_known : ParsedKeyLine → Imported → Db → Imported × Db
  unfolding filled is_filled note
  import_known i c d = elim (find_by (has_hash (m.hash i.api_key)) d.now.keys) [
    | none ↦ (record c { failures = c.failures ++ i.line_no ∷ [] }, d)
    | some k ↦
        if is_filled i k
        then (
          record c { updated = c.updated + 1 },
          note "key.import_text.update" (key_resource k) (put_key k.key.id (filled m i) d),
        )
        else (record c { skipped = c.skipped + 1 }, d)
  ]

  -- one item; a savepoint fails where the row breaks a constraint
  unfoldable pub import_one : ParsedKeyLine → Imported → Db → Imported × Db
  unfolding imported_row note import_known holds
  import_one i c d =
      let k = imported_row m today (ids i.line_no) p i in
      let added = note "key.import_text.create" (key_resource k) (add_key k d) in
      if holds added.now then (record c { created = c.created + 1 }, added) else import_known i c d

  unfoldable pub import_all : List ParsedKeyLine → Imported → Db → Imported × Db
  unfolding import_one
  import_all [] c d = (c, d)
  import_all (i ∷ items) c d = let r = import_one i c d in import_all items r.0 r.1

-- `import_keys_text`
unfoldable pub import_keys_text :
    (List ℕ → Option ℕ)
    → Option Master
    → ℕ
    → (ℕ → ℕ)
    → CreateKey
    → List ℕ
    → Db
    → Result Imported × Db
unfolding parse_keys_text import_all settle
import_keys_text from_iso none today ids p text d = (raise 503 Code.not_ready, d)
import_keys_text from_iso (some m) today ids p text d =
    let read = parse_keys_text from_iso text in
    let none_done : Imported = record {
      created = 0;
      updated = 0;
      skipped = 0;
      failures = read.1;
    } in
    let done = import_all m today ids p read.0 none_done d in
    let run : Result Imported × Db = settle (raise 503 Code.db_unavailable) done.0 done.1 in
    let refused : Result Imported × Db = elim read.0 [
      | [] ↦ elim read.1 [ [] ↦ run | n ∷ ns ↦ (raise 400 Code.validation_error, d) ]
      | i ∷ is ↦ run
    ] in
    if not (is_provider p.provider) then (raise 400 Code.validation_error, d) else refused
