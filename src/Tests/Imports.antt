-- ===== src/Tests/Imports.antt =====
-- An import of keys into the console's tables of Tests/Consoles.antt.
use fcam_gateway.Prelude.{ℕ, ◌+◌, refl, Option, none, some, List, [], ◌∷◌, ◌++◌, length, find_by}
use fcam_gateway.Prelude.Text.{codes}
use fcam_gateway.Admin.{Db}
use fcam_gateway.Admin.Import.{Imported, import_keys_text}
use fcam_gateway.Admin.Import.Keeps.{StillThere, import_keeps}
use fcam_gateway.Tests.Consoles.{master, a_key, a_row, a_db}

-- a new key, a comment, two keys with the digests of the tables' keys, and a key that is too short
abbrev a_list : List ℕ
a_list =
    codes "fc-0123456789"
    ++ 10 ∷ codes "# old"
    ++ 10 ∷ codes "anna | fc-45678901"
    ++ 13 ∷ 10 ∷ codes "fc-456789012"
    ++ 10 ∷ codes "fc-1"
    ++ 10 ∷ []

abbrev an_answer : Imported
an_answer = record { created = 1; updated = 1; skipped = 1; failures = 5 ∷ [] }

abbrev after : Db
after = (import_keys_text (λ t. none) (some master) 6 (λ n. 3 + n) a_key a_list a_db).1

import_keeps_example : StillThere 1 (a_row 1 11) after.saved.keys
unfolding fcam_gateway.Admin.key_row find_by import_keys_text fcam_gateway.Prelude.distinct
    fcam_gateway.Prelude.all_of fcam_gateway.Admin.Clients.new_client fcam_gateway.Admin.put_key
    fcam_gateway.Prelude.update_by
import_keeps_example =
    import_keeps (λ t. none) master 6 (λ n. 3 + n) a_key a_list a_db after an_answer 1 (a_row 1 11)
      refl refl
