-- ===== src/Tests/State.antt =====
-- The replay store and the nonce stores at concrete values.
use keylix_community.Prelude.{◌≡◌, ◌≢◌, refl, List, [], ◌∷◌, none, some, ok, pos, codes, arith}
use keylix_community.Dpop.Ports.{PortResult, ReplayKey, DpopNonce, fresh, replay}
use keylix_community.Dpop.State.Contract.{Call}
use keylix_community.Dpop.State.Replay.{InMemoryReplayStore, check_and_record}
use keylix_community.Dpop.State.Replay.Laws as replays
use keylix_community.Dpop.State.Replay.Laws.{Holds, store-ReplayContract}
use keylix_community.Dpop.State.Replay.Acceptance.{active, check_and_record_fresh_iff}
use keylix_community.Dpop.State.Nonces.{
  NonceContext, NonceTable, authorization_server, resource_server, nonce_for, issue_nonce,
}
use keylix_community.Dpop.State.Nonces.Laws as nonces
use keylix_community.Dpop.State.Nonces.Laws.{
  challenge, success, issue, apply, apply-IsValid, nonce_for-apply_ne, no_downgrade, issue-expected,
  refused_at_capacity,
}

abbrev key_a : ReplayKey
key_a = record { bytes = 1 ∷ [] }

abbrev key_b : ReplayKey
key_b = record { bytes = 2 ∷ [] }

abbrev empty : InMemoryReplayStore
empty = record { capacity = 2; entries = [] }

abbrev one : InMemoryReplayStore
one = record { capacity = 2; entries = (key_a, pos 200) ∷ [] }

empty-IsValid : replays.IsValid empty
empty-IsValid = record { distinct = tt; bounded = omega arith }

one-IsValid : replays.IsValid one
one-IsValid = record { distinct = (refl, tt); bounded = omega arith }

-- `replay_ttl_retains_exact_acceptance_boundary` and `replay_capacity_never_evicts_an_active_marker`.
still_refused : (check_and_record (ok (pos 200)) key_a (pos 200) one).0 ≡ ok replay
unfolding check_and_record
still_refused = refl

new_again : (check_and_record (ok (pos 201)) key_a (pos 300) one).0 ≡ ok fresh
unfolding check_and_record
new_again = refl

accepted : (check_and_record (ok (pos 100)) key_a (pos 200) empty).0 ≡ ok fresh
unfolding check_and_record
accepted = refl

abbrev between : List Call
between = record { reading = ok (pos 150); key = key_b; expiry = pos 180 } ∷ []

abbrev at_server : NonceContext
at_server = record { namespace = authorization_server; server_id = codes "as" }

abbrev at_resource : NonceContext
at_resource = record { namespace = resource_server; server_id = codes "as" }

abbrev nonce_1 : DpopNonce
nonce_1 = record { value = codes "n1" }

abbrev nonce_2 : DpopNonce
nonce_2 = record { value = codes "n2" }

abbrev table : NonceTable
table = record { capacity = 1; entries = (at_server, nonce_1) ∷ [] }

table-IsValid : nonces.IsValid table
table-IsValid = record { distinct = (refl, tt); bounded = omega arith }

-- `client_nonce_state_is_namespaced_and_cannot_downgrade`.
namespaced : nonce_for at_resource table ≡ ok none
unfolding nonce_for
namespaced = refl

known : nonce_for at_server table ≡ ok (some nonce_1)
unfolding nonce_for
known = refl

apply-IsValid_example : nonces.IsValid (apply (challenge at_server nonce_2) table)
apply-IsValid_example = apply-IsValid (challenge at_server nonce_2) table table-IsValid

nonce_for-apply_ne_example :
    nonce_for at_resource (apply (challenge at_server nonce_2) table) ≡ nonce_for at_resource table
nonce_for-apply_ne_example =
    nonce_for-apply_ne (challenge at_server nonce_2) table at_resource table-IsValid (λ e. cc)

no_downgrade_example : nonce_for at_server (apply (success at_server none) table) ≢ ok none
no_downgrade_example =
    no_downgrade (success at_server none) table at_server (λ e. e) (λ e. cc (known, e))

abbrev generated : PortResult DpopNonce
generated = ok nonce_2

rotated : (issue_nonce (ok nonce_2) at_server table).0 ≡ ok nonce_2
unfolding issue_nonce
rotated = refl

issue-expected_example :
    (generated ≡ ok nonce_2)
    × (nonce_for at_server (issue_nonce generated at_server table).1 ≡ ok (some nonce_2))
issue-expected_example = issue-expected generated at_server table nonce_2 rotated

abbrev late : InMemoryReplayStore
late = record { capacity = 1; entries = (key_a, pos 200) ∷ [] }

late-IsValid : replays.IsValid late
late-IsValid = record { distinct = (refl, tt); bounded = omega arith }

-- A full store has room again once its record has expired.
check_and_record_fresh_iff_example :
    (check_and_record (ok (pos 201)) key_b (pos 300) late).0 ≡ ok fresh
unfolding active
check_and_record_fresh_iff_example =
    (check_and_record_fresh_iff (pos 201) key_b (pos 300) late late-IsValid).1
      (omega arith, λ f held. cc (held), omega arith)
