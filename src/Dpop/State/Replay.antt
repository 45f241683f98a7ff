-- ===== src/Dpop/State/Replay.antt =====
-- `InMemoryReplayStore` of crates/keylix-dpop/src/state.rs: a bounded table from replay keys to
-- expiry times.
pub mod Laws
pub mod Acceptance
use keylix_community.Prelude.{
  ℕ, true, ◌≡◌, ◌↔◌, Bool, List, [], Result, ok, err, ℤ, ltb_ℤ, leb_ℤ, leb, length, retain, arith,
  if◌then◌else◌, bytes_eq, bytes_eq_iff, ◌==◌,
}
use keylix_community.Dpop.Errors.{DpopError, port_error, invalid_policy}
use keylix_community.Dpop.Ports.{
  PortResult, Reading, ReplayKey, ReplayStatus, fresh, replay, ReplayStore,
}
use keylix_community.Dpop.State.Table.{Key, contains_key, insert}

pub same_key_iff : (a b : ReplayKey) → (bytes_eq a.bytes b.bytes ≡ true) ↔ (a ≡ b)
same_key_iff a b = ground (arith, bytes_eq_iff a.bytes b.bytes)

instance abbrev pub replay_key : Key ReplayKey
replay_key = record { same = λ a b. bytes_eq a.bytes b.bytes; same_iff = same_key_iff }

pub record InMemoryReplayStore : Type 0 where
  pub capacity : ℕ
  pub entries : List (ReplayKey × ℤ)

-- `InMemoryReplayStore::new`.
unfoldable pub new : ℕ → Result DpopError InMemoryReplayStore
new capacity =
    if capacity == 0 then err invalid_policy else ok (record { capacity = capacity; entries = [] })

-- `entries.retain(|_, expiry| *expiry >= now)`.
unfoldable pub purge : ℤ → List (ReplayKey × ℤ) → List (ReplayKey × ℤ)
purge now = retain (λ entry. leb_ℤ now entry.1)

-- What `check_and_record` does with the active entries.
unfoldable pub record_active :
    ReplayKey → ℤ → InMemoryReplayStore → PortResult ReplayStatus × InMemoryReplayStore
record_active key expires_at s =
    if contains_key key s.entries
    then (ok replay, s)
    else if leb s.capacity (length s.entries)
    then (err port_error, s)
    else (ok fresh, record s { entries = insert key expires_at s.entries })

unfoldable pub check_and_record :
    Reading → ReplayKey → ℤ → InMemoryReplayStore → PortResult ReplayStatus × InMemoryReplayStore
unfolding purge record_active
check_and_record (err e) key expires_at s = (err e, s)
check_and_record (ok now) key expires_at s =
    if ltb_ℤ expires_at now
    then (err port_error, s)
    else record_active key expires_at (record s { entries = purge now s.entries })

abbrev pub store : ReplayStore InMemoryReplayStore
store = record { check_and_record = check_and_record }
