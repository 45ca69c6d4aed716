-- ===== src/Admin/Import/Ran.antt =====
-- A run of `import_keys_text` of app/api/control_plane.py that is committed.
use fcam_gateway.Prelude.{ℕ, ◌≡◌, Bool-cases, inl, inr, Option, some, List, [], ◌∷◌}
use fcam_gateway.Models.{Result, ok, raise, failure, Code}
use fcam_gateway.Admin.{Db, settle}
use fcam_gateway.Admin.Settled.{Settled, settled}
use fcam_gateway.Admin.Keys.{Master, CreateKey, is_provider}
use fcam_gateway.Admin.Import.{
  ParsedKeyLine, parse_keys_text, Imported, import_all, import_keys_text,
}

module _ (m : Master) (today : ℕ) (ids : ℕ → ℕ) (p : CreateKey) (d : Db) where
  -- the loop over what has been read
  abbrev pub worked : List ParsedKeyLine × List ℕ → Imported × Db
  worked read =
      let none_done : Imported = record {
        created = 0;
        updated = 0;
        skipped = 0;
        failures = read.1;
      } in
      import_all m today ids p read.0 none_done d

  -- a run that is committed has gone through every item
  pub ran :
      (from_iso : List ℕ → Option ℕ) (text : List ℕ) (d' : Db) (r : Imported)
      → import_keys_text from_iso (some m) today ids p text d ≡ (ok r, d')
      → let done = worked (parse_keys_text from_iso text) in Settled done.0 r done.1 d'
  unfolding import_keys_text
  ran from_iso text d' r h = elim (Bool-cases (is_provider p.provider)) [
    | inr e ↦ cc (rw e at h)
    | inl e ↦ go (parse_keys_text from_iso text) (rw e at h)
  ]
    where
      go :
          (read : List ParsedKeyLine × List ℕ)
          → (let done = worked read in
              let run : Result Imported × Db =
                settle (raise 503 Code.db_unavailable) done.0 done.1 in
              elim read.0 as (λ y. Result Imported × Db) [
                | [] ↦ elim read.1 [ [] ↦ run | n ∷ ns ↦ (raise 400 Code.validation_error, d) ]
                | i ∷ is ↦ run
              ])
            ≡ (ok r, d')
          → let done = worked read in Settled done.0 r done.1 d'
      go (i ∷ is, ns) h =
          let done = worked (i ∷ is, ns) in
          settled (failure 503 Code.db_unavailable) done.0 r done.1 d' h
      go ([], []) h =
          let done = worked ([], []) in
          settled (failure 503 Code.db_unavailable) done.0 r done.1 d' h
      go ([], n ∷ ns) h = cc
