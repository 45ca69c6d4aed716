-- ===== src/Admin/Import/Keeps.antt =====
-- What an import, in `import_keys_text` of app/api/control_plane.py, leaves of the keys that are there.
use fcam_gateway.Prelude.{
  ℕ, ◌+◌, ◌≡◌, refl, sym, subst, ◌++◌, ◌∙◌, ap, true, false, Option, none, some, List, [], ◌∷◌,
  arith, if◌then◌else◌, find_by, update_by, find_by-update_other, elem, map, distinct, Bool-cases,
  inl, inr, if-elim,
}
use fcam_gateway.Models.{ok}
use fcam_gateway.Admin.{
  KeyRow, Db, Store, holds, is_unique, has_id, key_row, key_ids, note, put_key, key_resource,
}
use fcam_gateway.Admin.Keys.{Master, CreateKey, add_key}
use fcam_gateway.Admin.Import.Ran.{ran}
use fcam_gateway.Admin.Import.{
  ParsedKeyLine, Imported, filled, or_keep, is_blank, is_filled, has_hash, import_known, import_one,
  import_all, import_keys_text, parse_keys_text, imported_row,
}

-- a row with the account of another one
abbrev pub with_account : KeyRow → KeyRow → KeyRow
with_account a k = record k {
  account_username = a.account_username;
  account_password = a.account_password;
  account_verified_at = a.account_verified_at;
}

-- a key's row after an import: every column but those of the account, and what had been known of it
pub record Unharmed (k k' : KeyRow) : Type 0 where
  pub rest : k' ≡ with_account k' k
  pub username :
      k'.account_username
      ≡ (if is_blank k.account_username then k'.account_username else k.account_username)
  pub password : k'.account_password ≡ or_keep k.account_password k'.account_password
  pub verified_at : k'.account_verified_at ≡ or_keep k.account_verified_at k'.account_verified_at

-- the row of a key that was there is found, unharmed
pub record StillThere (id : ℕ) (k : KeyRow) (rows : List KeyRow) : Type 0 where
  pub row : KeyRow
  pub found : find_by (has_id id) rows ≡ some row
  pub unharmed : Unharmed k row

or_keep-again :
    {A : Type 0} (a b c : Option A) → b ≡ or_keep a b → c ≡ or_keep b c → c ≡ or_keep a c
or_keep-again none b c h i = refl
or_keep-again (some a) b c h i = i ∙ ap (λ y. or_keep y c) h

blank-again :
    (a b c : Option (List ℕ))
    → b ≡ (if is_blank a then b else a)
    → c ≡ (if is_blank b then c else b)
    → c ≡ (if is_blank a then c else a)
blank-again none b c h i = refl
blank-again (some []) b c h i = refl
blank-again (some (x ∷ xs)) b c h i = i ∙ ap (λ y. if is_blank y then c else y) h

or_keep_self : {A : Type 0} (a : Option A) → a ≡ or_keep a a
or_keep_self none = refl
or_keep_self (some a) = refl

or_keep-kept : {A : Type 0} (a b : Option A) → or_keep a b ≡ or_keep a (or_keep a b)
or_keep-kept none b = refl
or_keep-kept (some a) b = refl

name-kept :
    (a i : Option (List ℕ))
    → let b : Option (List ℕ) = elim i [ none ↦ a | some u ↦ if is_blank a then some u else a ] in
      b ≡ (if is_blank a then b else a)
name-kept none i = refl
name-kept (some []) i = refl
name-kept (some (x ∷ xs)) none = refl
name-kept (some (x ∷ xs)) (some u) = refl

Unharmed-refl : (k : KeyRow) → Unharmed k k
Unharmed-refl k = record {
  rest = refl;
  username = if-elim (λ y. k.account_username ≡ y) (is_blank k.account_username) refl refl;
  password = or_keep_self k.account_password;
  verified_at = or_keep_self k.account_verified_at;
}

Unharmed-trans : (k l n : KeyRow) → Unharmed k l → Unharmed l n → Unharmed k n
Unharmed-trans k l n u v = record {
  rest = v.rest ∙ ap (with_account n) u.rest;
  username =
      blank-again k.account_username l.account_username n.account_username u.username v.username;
  password =
      or_keep-again k.account_password l.account_password n.account_password u.password v.password;
  verified_at =
      or_keep-again k.account_verified_at l.account_verified_at n.account_verified_at u.verified_at
        v.verified_at;
}

filled-Unharmed : (m : Master) (i : ParsedKeyLine) (k : KeyRow) → Unharmed k (filled m i k)
unfolding filled
filled-Unharmed m i k = record {
  rest = refl;
  username = name-kept k.account_username i.account_username;
  password =
      or_keep-kept k.account_password
        (elim i.account_password [ none ↦ none | some p ↦ some (m.encrypt p) ]);
  verified_at = or_keep-kept k.account_verified_at i.account_verified_at;
}

-- a number that is looked for in the rest is not at the head
other_id :
    (id : ℕ) (new k : KeyRow) (rows : List KeyRow)
    → find_by (has_id id) rows ≡ some k
    → elem new.key.id (map (λ (r : KeyRow). r.key.id) rows) ≡ false
    → has_id id new ≡ false
unfolding find_by
other_id id new k [] found away = cc
other_id id new k (r ∷ rows) found away = ground (arith, found, away, other_id id new k rows)

holds-keys : (s : Store) → holds s ≡ true → distinct (key_ids s) ≡ true
unfolding holds is_unique
holds-keys s h = ground (arith, h)

distinct-head : (x : ℕ) (xs : List ℕ) → distinct (x ∷ xs) ≡ true → elem x xs ≡ false
unfolding distinct
distinct-head x xs h = ground (arith, h)

-- a row that is added with an id of its own does not hide another one
found-behind :
    (id : ℕ) (new k : KeyRow) (rows : List KeyRow)
    → find_by (has_id id) rows ≡ some k
    → distinct (new.key.id ∷ map (λ (r : KeyRow). r.key.id) rows) ≡ true
    → find_by (has_id id) (new ∷ rows) ≡ some k
unfolding find_by
found-behind id new k rows found h =
    rw
      (other_id id new k rows found
        (distinct-head new.key.id (map (λ (r : KeyRow). r.key.id) rows) h))
      found

unharmed-StillThere :
    (id : ℕ) (k : KeyRow) (rows : List KeyRow)
    → find_by (has_id id) rows ≡ some k
    → StillThere id k rows
unharmed-StillThere id k rows found = record { row = k; found = found; unharmed = Unharmed-refl k }

update_by-StillThere :
    (m : Master) (i : ParsedKeyLine) (id other : ℕ) (k : KeyRow) (rows : List KeyRow)
    → find_by (has_id id) rows ≡ some k
    → StillThere id k (update_by (has_id other) (filled m i) rows)
unfolding filled
update_by-StillThere m i id other k rows found = record {
  row = if has_id other k then filled m i k else k;
  found = find_by-update_other (has_id id) (has_id other) (filled m i) rows k (λ r. refl) found;
  unharmed = if-elim (Unharmed k) (has_id other k) (filled-Unharmed m i k) (Unharmed-refl k);
}

module _ (m : Master) (today : ℕ) (ids : ℕ → ℕ) (p : CreateKey) (id : ℕ) where
  -- the row of a key behind a step of the import
  abbrev After : KeyRow → Imported × Db → Type 0
  After k r = StillThere id k r.1.now.keys

  known-After :
      (k : KeyRow) (i : ParsedKeyLine) (c : Imported) (d : Db)
      → key_row d id ≡ some k
      → After k (import_known m today ids p i c d)
  unfolding import_known key_row note put_key
  known-After k i c d found = go (find_by (has_hash (m.hash i.api_key)) d.now.keys)
    where
      same : StillThere id k d.now.keys
      same = unharmed-StillThere id k d.now.keys found

      go :
          (o : Option KeyRow)
          → After k (elim o [
            | none ↦ (record c { failures = c.failures ++ i.line_no ∷ [] }, d)
            | some e ↦
                if is_filled i e
                then (
                  record c { updated = c.updated + 1 },
                  note "key.import_text.update" (key_resource e) (put_key e.key.id (filled m i) d),
                )
                else (record c { skipped = c.skipped + 1 }, d)
          ])
      go none = same
      go (some e) =
          if-elim (After k) (is_filled i e)
            (update_by-StillThere m i id e.key.id k d.now.keys found) same

  one-After :
      (k : KeyRow) (i : ParsedKeyLine) (c : Imported) (d : Db)
      → key_row d id ≡ some k
      → After k (import_one m today ids p i c d)
  unfolding import_one key_row
  one-After k i c d found =
      let new : KeyRow = imported_row m today (ids i.line_no) p i in
      let added = note "key.import_text.create" (key_resource new) (add_key new d) in
      elim (Bool-cases (holds added.now)) [
        | inr e ↦ rw e (known-After k i c d found)
        | inl e ↦ rw e (
            unharmed-StillThere id k (new ∷ d.now.keys)
              (found-behind id new k d.now.keys found (holds-keys added.now e)))
      ]

  all-After :
      (items : List ParsedKeyLine) (k : KeyRow) (c : Imported) (d : Db)
      → key_row d id ≡ some k
      → After k (import_all m today ids p items c d)
  unfolding import_all key_row
  all-After [] k c d found = unharmed-StillThere id k d.now.keys found
  all-After (i ∷ items) k c d found =
      let r = import_one m today ids p i c d in
      let there = one-After k i c d found in
      let rest = all-After items there.row r.0 r.1 there.found in
      record {
        row = rest.row;
        found = rest.found;
        unharmed = Unharmed-trans k there.row rest.row there.unharmed rest.unharmed;
      }

-- A key that is there before an import that is committed is there after it, with every column as it
-- was but the three of its account; and a user name, a password or a date of its account that is
-- set is not replaced.
pub import_keeps :
    (from_iso : List ℕ → Option ℕ) (m : Master) (today : ℕ) (ids : ℕ → ℕ) (p : CreateKey)
    (text : List ℕ) (d d' : Db) (r : Imported) (id : ℕ) (k : KeyRow)
    → key_row d id ≡ some k
    → import_keys_text from_iso (some m) today ids p text d ≡ (ok r, d')
    → StillThere id k d'.saved.keys
import_keeps from_iso m today ids p text d d' r id k found h =
    let read = parse_keys_text from_iso text in
    let none_done : Imported = record {
      created = 0;
      updated = 0;
      skipped = 0;
      failures = read.1;
    } in
    subst (λ (s : Store). StillThere id k s.keys)
      (sym (ran m today ids p d from_iso text d' r h).written)
      (all-After m today ids p id read.0 k none_done d found)
