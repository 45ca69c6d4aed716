-- ===== src/Api/Auth.antt =====
-- app/api/deps.py: who may use the data plane and the control plane. The digest of a token under
-- the master key (HMAC) is an argument.
use fcam_gateway.Prelude.{
  ℕ, Bool, true, false, not, Option, none, some, List, [], ◌∷◌, ◌==◌, if◌then◌else◌,
}
use fcam_gateway.Prelude.Text.{codes, same, strip, split, cut, lower}
use fcam_gateway.Models.{Client, Result, ok, raise, Code}

-- `value or None` of a text
abbrev pub non_empty : List ℕ → Option (List ℕ)
non_empty [] = none
non_empty (c ∷ cs) = some (c ∷ cs)

-- `_bearer_token`
unfoldable pub bearer_token : Option (List ℕ) → Option (List ℕ)
unfolding cut lower strip
bearer_token none = none
bearer_token (some header) = elim (cut b' ' header) [
  | none ↦ none
  | some (scheme, token) ↦
      if same (codes "bearer") (lower scheme) then non_empty (strip token) else none
]

-- the token of the administrator, the addresses that are allowed, and `server.trust_proxy_headers`
pub record AdminConfig : Type 0 where
  pub admin_token : List ℕ
  pub ip_allowlist : List (List ℕ)
  pub trust_proxy_headers : Bool

-- the address of the peer and the headers of a request
pub record Peer : Type 0 where
  pub host : List ℕ
  pub forwarded_for : List ℕ
  pub authorization : Option (List ℕ)

abbrev first_hop : List (List ℕ) → List ℕ
first_hop [] = []
first_hop (h ∷ hs) = strip h

-- `client_host` as it is compared with the allowlist
unfoldable pub client_host : AdminConfig → Peer → List ℕ
unfolding split strip
client_host c p =
    if c.trust_proxy_headers
    then elim (first_hop (split b',' p.forwarded_for)) [ [] ↦ p.host | x ∷ xs ↦ x ∷ xs ]
    else p.host

unfoldable pub is_listed : List (List ℕ) → List ℕ → Bool
is_listed [] text = false
is_listed (w ∷ ws) text = if same w text then true else is_listed ws text

-- the comparison of the token
abbrev pub check_token : AdminConfig → Option (List ℕ) → Result (Unit {0})
check_token c none = raise 401 Code.admin_unauthorized
check_token c (some token) =
    if same token c.admin_token then ok tt else raise 401 Code.admin_unauthorized

-- the test of the address
abbrev pub passes_list : AdminConfig → Peer → List (List ℕ) → Bool
passes_list c p [] = true
passes_list c p (w ∷ ws) = is_listed (w ∷ ws) (client_host c p)

abbrev pub check_admin : AdminConfig → Peer → List ℕ → Result (Unit {0})
check_admin c p [] = raise 503 Code.not_ready
check_admin c p (x ∷ xs) =
    if not (passes_list c p c.ip_allowlist)
    then raise 403 Code.admin_forbidden
    else check_token c (bearer_token p.authorization)

-- `require_admin`
unfoldable pub require_admin : AdminConfig → Peer → Result (Unit {0})
unfolding client_host is_listed bearer_token
require_admin c p = check_admin c p c.admin_token

-- a client with the digest of its token
pub record Login : Type 0 where
  pub token_hash : ℕ
  pub client : Client

-- the query by `token_hash`, which is unique
unfoldable pub find_login : ℕ → List Login → Option Client
find_login hash [] = none
find_login hash (l ∷ ls) =
    let rest = find_login hash ls in if l.token_hash == hash then some l.client else rest

-- `require_client`; the digest is there where a master key is, and the first flag tells whether the
-- database answers
unfoldable pub require_client :
    Bool → Option (List ℕ → ℕ) → List Login → Option (List ℕ) → Result Client
unfolding bearer_token find_login
require_client answers digest logins authorization = elim digest [
  | none ↦ raise 503 Code.not_ready
  | some hash ↦ elim (bearer_token authorization) [
    | none ↦ raise 401 Code.client_unauthorized
    | some token ↦
        if not answers
        then raise 503 Code.db_unavailable
        else elim (find_login (hash token) logins) [
          | none ↦ raise 401 Code.client_unauthorized
          | some client ↦ if not client.is_active then raise 403 Code.client_disabled else ok client
        ]
  ]
]
