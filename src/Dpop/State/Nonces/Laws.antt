-- ===== src/Dpop/State/Nonces/Laws.antt =====
-- The nonce tables stay maps within their capacity; contexts do not touch one another, and what a
-- server once required is dropped by `forget` alone.
use keylix_community.Prelude.{◌≤◌, ◌≡◌, ◌≢◌, refl, Option, none, some, ok, err, length, arith}
use keylix_community.Dpop.Errors.{port_error}
use keylix_community.Dpop.Ports.{PortResult, DpopNonce}
use keylix_community.Dpop.State.Table.{
  HasDistinctKeys, get-insert, length-insert, insert-HasDistinctKeys, get-remove, length-remove-le,
  remove-HasDistinctKeys,
}
use keylix_community.Dpop.State.Nonces.{
  NonceContext, NonceTable, context_key, same_context_iff, nonce_for, forget, record_challenge,
  record_success, issue_nonce,
}

pub record IsValid (s : NonceTable) : Type 0 where
  pub distinct : HasDistinctKeys s.entries
  pub bounded : length s.entries ≤ s.capacity

-- The operations that change a table, of both stores.
pub data Op : Type 0 where
  challenge : NonceContext → DpopNonce → Op
  success : NonceContext → Option DpopNonce → Op
  issue : PortResult DpopNonce → NonceContext → Op
  forgets : NonceContext → Op

unfoldable pub apply : Op → NonceTable → NonceTable
unfolding record_challenge record_success issue_nonce forget
apply (challenge c n) s = (record_challenge c n s).1
apply (success c n) s = (record_success c n s).1
apply (issue g c) s = (issue_nonce g c s).1
apply (forgets c) s = (forget c s).1

abbrev pub context_of : Op → NonceContext
context_of (challenge c n) = c
context_of (success c n) = c
context_of (issue g c) = c
context_of (forgets c) = c

-- Every operation keeps the table a map within its capacity.
pub apply-IsValid : (op : Op) (s : NonceTable) → IsValid s → IsValid (apply op s)
unfolding apply
apply-IsValid (challenge c n) s v =
    ground (arith, length-insert c n s.entries, insert-HasDistinctKeys c n s.entries v.distinct)
apply-IsValid (success c none) s v = v
apply-IsValid (success c (some n)) s v =
    ground (arith, length-insert c n s.entries, insert-HasDistinctKeys c n s.entries v.distinct)
apply-IsValid (issue (err e) c) s v = v
apply-IsValid (issue (ok n) c) s v =
    ground (arith, length-insert c n s.entries, insert-HasDistinctKeys c n s.entries v.distinct)
apply-IsValid (forgets c) s v =
    ground (arith, length-remove-le c s.entries, remove-HasDistinctKeys c s.entries v.distinct)

-- On a valid table an operation on one context leaves the nonce of every other context as it was, so the nonces of an
-- authorization server and of a resource server never meet.
pub nonce_for-apply_ne :
    (op : Op) (s : NonceTable) (c : NonceContext)
    → IsValid s
    → context_of op ≢ c
    → nonce_for c (apply op s) ≡ nonce_for c s
unfolding apply nonce_for
nonce_for-apply_ne (challenge d n) s c v ne =
    ground (arith, get-insert d c n s.entries, same_context_iff d c)
nonce_for-apply_ne (success d none) s c v ne = refl
nonce_for-apply_ne (success d (some n)) s c v ne =
    ground (arith, get-insert d c n s.entries, same_context_iff d c)
nonce_for-apply_ne (issue (err e) d) s c v ne = refl
nonce_for-apply_ne (issue (ok n) d) s c v ne =
    ground (arith, get-insert d c n s.entries, same_context_iff d c)
nonce_for-apply_ne (forgets d) s c v ne =
    ground (arith, get-remove d c s.entries v.distinct, same_context_iff d c)

abbrev pub IsForgetting : Op → Type 0
IsForgetting (forgets c) = Unit
IsForgetting _ = ⊥

-- No operation but `forget` takes a context's nonce requirement away: responses without a nonce,
-- failed generators and full tables included.
pub no_downgrade :
    (op : Op) (s : NonceTable) (c : NonceContext)
    → ¬ IsForgetting op
    → nonce_for c s ≢ ok none
    → nonce_for c (apply op s) ≢ ok none
unfolding apply nonce_for
no_downgrade (challenge d m) s c keep h =
    ground (arith, get-insert d c m s.entries, same_context_iff d c)
no_downgrade (success d none) s c keep h = h
no_downgrade (success d (some m)) s c keep h =
    ground (arith, get-insert d c m s.entries, same_context_iff d c)
no_downgrade (issue (err e) d) s c keep h = h
no_downgrade (issue (ok m) d) s c keep h =
    ground (arith, get-insert d c m s.entries, same_context_iff d c)
no_downgrade (forgets d) s c keep h = absurd (keep tt)

-- A nonce that `issue_nonce` returns is the one that the context requires from then on.
pub issue-expected :
    (g : PortResult DpopNonce) (c : NonceContext) (s : NonceTable) (n : DpopNonce)
    → (issue_nonce g c s).0 ≡ ok n
    → (g ≡ ok n) × (nonce_for c (issue_nonce g c s).1 ≡ ok (some n))
unfolding issue_nonce nonce_for
issue-expected (err e) c s n h = cc
issue-expected (ok m) c s n h = ground (arith, get-insert c c m s.entries, same_context_iff c c)

-- At full capacity a context that has no nonce is refused, and the table is as it was.
pub refused_at_capacity :
    (c : NonceContext) (n : DpopNonce) (s : NonceTable)
    → s.capacity ≤ length s.entries
    → nonce_for c s ≡ ok none
    → (record_challenge c n s ≡ (err port_error, s))
      × (issue_nonce (ok n) c s ≡ (err port_error, s))
unfolding record_challenge issue_nonce nonce_for
refused_at_capacity c n s full unknown = (ground arith, ground arith)
