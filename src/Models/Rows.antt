-- ===== src/Models/Rows.antt =====
-- Laws of the session of app/db: reading a row after an assignment and after a commit.
use fcam_gateway.Prelude.{ℕ, ◌≡◌, Option, none, some, List, [], ◌∷◌, arith, ◌==◌, if◌then◌else◌}
use fcam_gateway.Models.{ApiKey, find_key, assign}

-- an assignment keeps the ids
abbrev pub KeepsId : (ApiKey → ApiKey) → Type 0
KeepsId f = (k : ApiKey) → (f k).id ≡ k.id

abbrev pub map_option {ℓ κ} : {A : Type ℓ} {B : Type κ} → (A → B) → Option A → Option B
map_option f none = none
map_option f (some a) = some (f a)

pub find_key-assign :
    (i j : ℕ) (f : ApiKey → ApiKey) (ks : List ApiKey)
    → KeepsId f
    → find_key j (assign i f ks) ≡ (if i == j then map_option f (find_key j ks) else find_key j ks)
unfolding find_key assign
find_key-assign i j f [] h = ground arith
find_key-assign i j f (k ∷ ks) h = ground (arith, h k, find_key-assign i j f ks h)
