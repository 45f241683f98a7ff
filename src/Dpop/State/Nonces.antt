-- ===== src/Dpop/State/Nonces.antt =====
-- The nonce stores of crates/keylix-dpop/src/state.rs: the client's cache of the nonces that servers
-- sent, and the server's table of the nonces that it requires, both by issuing context.
pub mod Laws
use keylix_community.Prelude.{
  ℕ, suc, ◌≡◌, ◌↔◌, Bool, true, false, ◌&&◌, ◌||◌, List, [], ◌∷◌, Option, none, some, Result, ok,
  err, leb, ltb, length, is_empty, arith, if◌then◌else◌, Bytes, bytes_eq, bytes_eq_iff, ◌==◌, any,
  not,
}
use keylix_community.Dpop.Errors.{DpopError, port_error, invalid_policy}
use keylix_community.Dpop.Ports.{PortResult, DpopNonce, ServerNonceStore}
use keylix_community.Dpop.State.Table.{Key, get, contains_key, insert, remove}

abbrev pub max_nonce_context_bytes : ℕ
max_nonce_context_bytes = 2048

pub data NonceNamespace : Type 0 where
  authorization_server resource_server : NonceNamespace

abbrev pub same_namespace : NonceNamespace → NonceNamespace → Bool
same_namespace authorization_server authorization_server = true
same_namespace resource_server resource_server = true
same_namespace _ _ = false

pub record NonceContext : Type 0 where
  pub namespace : NonceNamespace
  pub server_id : Bytes

-- `chars().any(char::is_control)` on UTF-8: the control characters are U+0000 to U+001F, U+007F, and
-- U+0080 to U+009F, which are the byte 0xc2 before one of 0x80 to 0x9f.
unfoldable pub has_control : Bytes → Bool
has_control [] = false
has_control (b ∷ []) = ltb b 0x20 || b == 0x7f
has_control (b ∷ c ∷ rest) =
    (ltb b 0x20 || b == 0x7f) || (b == 0xc2 && leb 0x80 c && leb c 0x9f) || has_control (c ∷ rest)

-- `NonceContext::new`.
unfoldable pub new_context : NonceNamespace → Bytes → Result DpopError NonceContext
unfolding has_control
new_context namespace server_id =
    if is_empty server_id || ltb max_nonce_context_bytes (length server_id) || has_control server_id
    then err invalid_policy
    else ok (record { namespace = namespace; server_id = server_id })

abbrev pub same_context : NonceContext → NonceContext → Bool
same_context a b = same_namespace a.namespace b.namespace && bytes_eq a.server_id b.server_id

pub same_context_iff : (a b : NonceContext) → (same_context a b ≡ true) ↔ (a ≡ b)
same_context_iff a b = ground (arith, bytes_eq_iff a.server_id b.server_id)

instance abbrev pub context_key : Key NonceContext
context_key = record { same = same_context; same_iff = same_context_iff }

-- Both stores have a capacity and a table.
pub record NonceTable : Type 0 where
  pub capacity : ℕ
  pub entries : List (NonceContext × DpopNonce)

-- `InMemoryClientNonceStore::new` and `InMemoryServerNonceStore::new`.
unfoldable pub new : ℕ → Result DpopError NonceTable
new capacity =
    if capacity == 0 then err invalid_policy else ok (record { capacity = capacity; entries = [] })

-- `nonce_for` of the client, `expected_nonce` of the server.
unfoldable pub nonce_for : NonceContext → NonceTable → PortResult (Option DpopNonce)
nonce_for context s = ok (get context s.entries)

-- `forget`.
unfoldable pub forget : NonceContext → NonceTable → PortResult (Unit {0}) × NonceTable
forget context s = (ok tt, record s { entries = remove context s.entries })

-- `InMemoryClientNonceStore::record`.
unfoldable pub record_nonce :
    NonceContext → DpopNonce → NonceTable → PortResult (Unit {0}) × NonceTable
record_nonce context nonce s =
    if not (contains_key context s.entries) && leb s.capacity (length s.entries)
    then (err port_error, s)
    else (ok tt, record s { entries = insert context nonce s.entries })

unfoldable pub record_challenge :
    NonceContext → DpopNonce → NonceTable → PortResult (Unit {0}) × NonceTable
unfolding record_nonce
record_challenge context nonce s = record_nonce context nonce s

unfoldable pub record_success :
    NonceContext → Option DpopNonce → NonceTable → PortResult (Unit {0}) × NonceTable
unfolding record_nonce
record_success context none s = (ok tt, s)
record_success context (some nonce) s = record_nonce context nonce s

-- `issue_nonce`, with what the generator returns.
unfoldable pub issue_nonce :
    PortResult DpopNonce → NonceContext → NonceTable → PortResult DpopNonce × NonceTable
issue_nonce (err e) context s = (err e, s)
issue_nonce (ok nonce) context s =
    if not (contains_key context s.entries) && leb s.capacity (length s.entries)
    then (err port_error, s)
    else (ok nonce, record s { entries = insert context nonce s.entries })

-- The server's store as a capability.
abbrev pub server_store : ServerNonceStore NonceTable NonceContext
server_store = record { expected_nonce = nonce_for; issue_nonce = issue_nonce }

-- `trait ClientNonceStore`, over the store's state.
pub record ClientNonceStore (S : Type 0) : Type 0 where
  pub nonce_for : NonceContext → S → PortResult (Option DpopNonce)
  pub record_challenge : NonceContext → DpopNonce → S → PortResult (Unit {0}) × S
  pub record_success : NonceContext → Option DpopNonce → S → PortResult (Unit {0}) × S

abbrev pub client_store : ClientNonceStore NonceTable
client_store = record {
  nonce_for = nonce_for;
  record_challenge = record_challenge;
  record_success = record_success;
}
