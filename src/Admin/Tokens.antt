-- ===== src/Admin/Tokens.antt =====
-- The life of a client's token: the routes of app/api/control_plane.py that make, show and replace
-- it, and `require_client` of app/api/deps.py.
use fcam_gateway.Prelude.{
  ℕ, ◌≡◌, ◌≢◌, refl, ap, Bool, true, false, not, Option, none, some, List, [], ◌∷◌, elem, map,
  Bool-cases, inl, inr, if◌then◌else◌, arith, find_by, update_by, distinct,
}
use fcam_gateway.Models.{Client, Result, ok, raise, Code}
use fcam_gateway.Admin.{ClientRow, Store, is_client, holds, is_unique}
use fcam_gateway.Api.Auth.{Login, find_login, bearer_token, require_client}

abbrev login_of : ClientRow → Login
login_of c = record { token_hash = c.token_hash; client = c.client }

-- what `require_client` looks at
abbrev pub logins : List ClientRow → List Login
logins cs = map login_of cs

abbrev pub hashes : List ClientRow → List ℕ
hashes cs = map (λ (c : ClientRow). c.token_hash) cs

-- the answer to a token of this client
abbrev pub admitted : Client → Result Client
admitted c = if not c.is_active then raise 403 Code.client_disabled else ok c

elem-found :
    (id : ℕ) (c : ClientRow) (cs : List ClientRow)
    → find_by (is_client id) cs ≡ some c
    → elem c.token_hash (hashes cs) ≡ true
unfolding find_by
elem-found id c [] h = cc
elem-found id c (x ∷ cs) h = elim (Bool-cases (is_client id x)) [
  | inl e ↦ (let h' : some x ≡ some c = rw e at h in let s : x ≡ c = cc in rw s (ground arith))
  | inr e ↦ ground (arith, elem-found id c cs (rw e at h))
]

-- the query by the token finds the row that the query by the id finds
pub find_login-found :
    (id : ℕ) (c : ClientRow) (cs : List ClientRow)
    → distinct (hashes cs) ≡ true
    → find_by (is_client id) cs ≡ some c
    → find_login c.token_hash (logins cs) ≡ some c.client
unfolding find_by distinct find_login
find_login-found id c [] d h = cc
find_login-found id c (x ∷ cs) d h = elim (Bool-cases (is_client id x)) [
  | inl e ↦ (let h' : some x ≡ some c = rw e at h in let s : x ≡ c = cc in rw s (ground arith))
  | inr e ↦
      (let h' = rw e at h in
        ground (arith, d, elem-found id c cs h', find_login-found id c cs (ground (arith, d)) h'))
]

-- a digest that no row has is found in no row
find_login-none :
    (hash : ℕ) (cs : List ClientRow)
    → elem hash (hashes cs) ≡ false
    → find_login hash (logins cs) ≡ none
unfolding find_login
find_login-none hash [] h = refl
find_login-none hash (x ∷ cs) h = ground (arith, h, find_login-none hash cs)

-- rows that get a new digest lose the old one
elem-updated :
    (test : ClientRow → Bool) (f : ClientRow → ClientRow) (old new : ℕ) (cs : List ClientRow)
    → ((c : ClientRow) → (f c).token_hash ≡ new)
    → old ≢ new
    → elem old (hashes cs) ≡ false
    → elem old (hashes (update_by test f cs)) ≡ false
unfolding update_by
elem-updated test f old new [] n ne h = refl
elem-updated test f old new (x ∷ cs) n ne h =
    ground (arith, n x, ne, h, elem-updated test f old new cs n ne)

pub lost-updated :
    (id : ℕ) (f : ClientRow → ClientRow) (new : ℕ) (c : ClientRow) (cs : List ClientRow)
    → ((r : ClientRow) → (f r).token_hash ≡ new)
    → c.token_hash ≢ new
    → distinct (hashes cs) ≡ true
    → find_by (is_client id) cs ≡ some c
    → elem c.token_hash (hashes (update_by (is_client id) f cs)) ≡ false
unfolding update_by find_by distinct
lost-updated id f new c [] n ne d h = cc
lost-updated id f new c (x ∷ cs) n ne d h = elim (Bool-cases (is_client id x)) [
  | inl e ↦
      (let h' : some x ≡ some c = rw e at h in
        let s : x ≡ c = cc in
        let same : x.token_hash ≡ c.token_hash = ap (λ (r : ClientRow). r.token_hash) s in
        ground (arith, e, d, n x, ne, same, elem-updated (is_client id) f c.token_hash new cs n ne))
  | inr e ↦
      (let h' = rw e at h in
        ground (
          arith,
          e,
          d,
          elem-found id c cs h',
          lost-updated id f new c cs n ne (ground (arith, d)) h',
        ))
]

pub holds-distinct : (s : Store) → holds s ≡ true → distinct (hashes s.clients) ≡ true
unfolding holds is_unique
holds-distinct s h = ground (arith, h)

module _ (hash : List ℕ → ℕ) (cs : List ClientRow) (header : Option (List ℕ)) (token : List ℕ)
    (sent : bearer_token header ≡ some token) where
  pub require-found :
      (c : Client)
      → find_login (hash token) (logins cs) ≡ some c
      → require_client true (some hash) (logins cs) header ≡ admitted c
  unfolding require_client
  require-found c h = rw (require_client, sent, h) refl

  pub require-none :
      elem (hash token) (hashes cs) ≡ false
      → require_client true (some hash) (logins cs) header ≡ raise 401 Code.client_unauthorized
  unfolding require_client
  require-none h = rw (require_client, sent, find_login-none (hash token) cs h) refl
