-- ===== src/Admin/Kept/Imports.antt =====
-- What `import_keys_text` of app/api/control_plane.py keeps.
use fcam_gateway.Prelude.{
  ℕ, ◌+◌, ◌≡◌, true, Option, none, some, List, [], ◌∷◌, ◌++◌, find_by, all_of, if-elim,
  if◌then◌else◌, not,
}
use fcam_gateway.Models.{Result, raise, Code}
use fcam_gateway.Admin.{KeyRow, Db, holds, note, put_key, key_resource, settle}
use fcam_gateway.Admin.Keys.{Master, CreateKey, is_provider, add_key}
use fcam_gateway.Admin.Rows.{key_ok, IsKept, KeepsKey, new_row-ok}
use fcam_gateway.Admin.Kept.Steps.{Ends, commit-IsKept, put_key-IsKept}
use fcam_gateway.Admin.Import.Ran.{worked}
use fcam_gateway.Admin.Import.{
  ParsedKeyLine, parse_keys_text, Imported, has_hash, filled, is_filled, imported_row, import_known,
  import_one, import_all, import_keys_text,
}

filled-keeps : (m : Master) (i : ParsedKeyLine) → KeepsKey (filled m i)
unfolding filled
filled-keeps m i k h = h

imported_row-ok :
    (m : Master) (today id : ℕ) (p : CreateKey) (i : ParsedKeyLine)
    → key_ok (imported_row m today id p i) ≡ true
unfolding imported_row
imported_row-ok m today id p i =
    new_row-ok m today id (record p { api_key = i.api_key; name = none })

module _ (m : Master) (today : ℕ) (ids : ℕ → ℕ) (p : CreateKey) where
  known-Ends :
      (i : ParsedKeyLine) (c : Imported) (d : Db)
      → IsKept d
      → Ends (import_known m today ids p i c d)
  unfolding import_known note
  known-Ends i c d h = go (find_by (has_hash (m.hash i.api_key)) d.now.keys)
    where
      go :
          (o : Option KeyRow)
          → let x : Imported × Db = elim o [
            | none ↦ (record c { failures = c.failures ++ i.line_no ∷ [] }, d)
            | some k ↦
                if is_filled i k
                then (
                  record c { updated = c.updated + 1 },
                  note "key.import_text.update" (key_resource k) (put_key k.key.id (filled m i) d),
                )
                else (record c { skipped = c.skipped + 1 }, d)
          ] in
            Ends x
      go none = h
      go (some k) =
          if-elim Ends (is_filled i k) (put_key-IsKept k.key.id (filled m i) d (filled-keeps m i) h)
            h

  one-Ends :
      (i : ParsedKeyLine) (c : Imported) (d : Db) → IsKept d → Ends (import_one m today ids p i c d)
  unfolding import_one note all_of
  one-Ends i c d h =
      let new : KeyRow = imported_row m today (ids i.line_no) p i in
      let added = note "key.import_text.create" (key_resource new) (add_key new d) in
      if-elim Ends (holds added.now)
        ((rw (all_of, imported_row-ok m today (ids i.line_no) p i) h.0.0, h.0.1), h.1)
        (known-Ends i c d h)

  all-Ends :
      (items : List ParsedKeyLine) (c : Imported) (d : Db)
      → IsKept d
      → Ends (import_all m today ids p items c d)
  unfolding import_all
  all-Ends [] c d h = h
  all-Ends (i ∷ items) c d h = all-Ends items _ _ (one-Ends i c d h)

pub import_keys_text-Ends :
    (from_iso : List ℕ → Option ℕ) (m : Option Master) (today : ℕ) (ids : ℕ → ℕ) (p : CreateKey)
    (text : List ℕ) (d : Db)
    → IsKept d
    → Ends (import_keys_text from_iso m today ids p text d)
unfolding import_keys_text settle
import_keys_text-Ends from_iso none today ids p text d h = h
import_keys_text-Ends from_iso (some m) today ids p text d h =
    if-elim Ends (not (is_provider p.provider)) h (go (parse_keys_text from_iso text))
  where
    run :
        (read : List ParsedKeyLine × List ℕ)
        → let done = worked m today ids p d read in
          Ends (settle (raise 503 Code.db_unavailable) done.0 done.1)
    run read = commit-IsKept _ (all-Ends m today ids p read.0 _ d h)

    go :
        (read : List ParsedKeyLine × List ℕ)
        → let done = worked m today ids p d read in
          let run : Result Imported × Db = settle (raise 503 Code.db_unavailable) done.0 done.1 in
          let x : Result Imported × Db = elim read.0 [
            | [] ↦ elim read.1 [ [] ↦ run | n ∷ ns ↦ (raise 400 Code.validation_error, d) ]
            | i ∷ is ↦ run
          ] in
          Ends x
    go (i ∷ is, ns) = run (i ∷ is, ns)
    go ([], []) = run ([], [])
    go ([], n ∷ ns) = h
