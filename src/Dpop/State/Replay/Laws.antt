-- ===== src/Dpop/State/Replay/Laws.antt =====
-- The in-memory replay store keeps its invariant, forgets nothing early and fulfils the contract.
use keylix_community.Prelude.{
  ◌≤◌, ◌≡◌, ◌≢◌, refl, ok, err, ℤ, ◌≤ℤ◌, length, arith, some, leb_ℤ, length-retain-le,
}
use keylix_community.Dpop.Ports.{Reading, ReplayKey, fresh}
use keylix_community.Dpop.State.Table.{
  get, HasDistinctKeys, get-insert, length-insert, insert-HasDistinctKeys, get-retain,
  retain-HasDistinctKeys,
}
use keylix_community.Dpop.State.Contract.{NotAfter, ReplayContract}
use keylix_community.Dpop.State.Replay.{
  InMemoryReplayStore, replay_key, same_key_iff, purge, record_active, check_and_record, store,
}

-- The table is a map, and holds no more than its capacity.
pub record IsValid (s : InMemoryReplayStore) : Type 0 where
  pub distinct : HasDistinctKeys s.entries
  pub bounded : length s.entries ≤ s.capacity

abbrev pub Holds : InMemoryReplayStore → ReplayKey → ℤ → Type 0
Holds s k e = get k s.entries ≡ some e

abbrev purged : ℤ → InMemoryReplayStore → InMemoryReplayStore
purged now s = record s { entries = purge now s.entries }

purge-IsValid : (now : ℤ) (s : InMemoryReplayStore) → IsValid s → IsValid (purged now s)
unfolding purge
purge-IsValid now s v = record {
  distinct = retain-HasDistinctKeys (leb_ℤ now) s.entries v.distinct;
  bounded = omega (arith, length-retain-le (λ entry. leb_ℤ now entry.1) s.entries, v.bounded);
}

purge-Holds :
    (now : ℤ) (s : InMemoryReplayStore) (j : ReplayKey) (f : ℤ)
    → IsValid s
    → Holds s j f
    → now ≤ℤ f
    → Holds (purged now s) j f
unfolding purge
purge-Holds now s j f v h p = rw (get-retain (leb_ℤ now) j s.entries v.distinct, h) (ground arith)

module _ (k : ReplayKey) (e : ℤ) (s : InMemoryReplayStore) where
  record_active-IsValid : IsValid s → IsValid (record_active k e s).1
  unfolding record_active
  record_active-IsValid v =
      ground (arith, length-insert k e s.entries, insert-HasDistinctKeys k e s.entries v.distinct)

  record_active-records : (record_active k e s).0 ≡ ok fresh → Holds (record_active k e s).1 k e
  unfolding record_active
  record_active-records h = ground (arith, get-insert k k e s.entries, same_key_iff k k)

  record_active-remembers :
      (j : ReplayKey) (f : ℤ) → Holds s j f → Holds (record_active k e s).1 j f
  unfolding record_active
  record_active-remembers j f h = ground (arith, get-insert k j e s.entries, same_key_iff k j)

  record_active-refuses : (f : ℤ) → Holds s k f → (record_active k e s).0 ≢ ok fresh
  unfolding record_active
  record_active-refuses f h = ground arith

-- Every call leaves a map that is no larger than its capacity, whatever the call answers.
pub check_and_record-IsValid :
    (r : Reading) (k : ReplayKey) (e : ℤ) (s : InMemoryReplayStore)
    → IsValid s
    → IsValid (check_and_record r k e s).1
unfolding check_and_record
check_and_record-IsValid (err x) k e s v = v
check_and_record-IsValid (ok now) k e s v =
    ground (arith, record_active-IsValid k e (purged now s) (purge-IsValid now s v))

-- An entry is there after any call that does not come after its expiry: nothing is evicted to make
-- room, and no expiry is changed.
pub check_and_record-remembers :
    (r : Reading) (k : ReplayKey) (e : ℤ) (s : InMemoryReplayStore) (j : ReplayKey) (f : ℤ)
    → IsValid s
    → Holds s j f
    → NotAfter r f
    → Holds (check_and_record r k e s).1 j f
unfolding check_and_record
check_and_record-remembers (err x) k e s j f v h n = h
check_and_record-remembers (ok now) k e s j f v h n =
    ground (arith, record_active-remembers k e (purged now s) j f (purge-Holds now s j f v h n))

check_and_record-refuses :
    (r : Reading) (k : ReplayKey) (e : ℤ) (s : InMemoryReplayStore) (f : ℤ)
    → IsValid s
    → Holds s k f
    → NotAfter r f
    → (check_and_record r k e s).0 ≢ ok fresh
unfolding check_and_record
check_and_record-refuses (err x) k e s f v h n = λ a. cc
check_and_record-refuses (ok now) k e s f v h n =
    ground (arith, record_active-refuses k e (purged now s) f (purge-Holds now s k f v h n))

check_and_record-records :
    (r : Reading) (k : ReplayKey) (e : ℤ) (s : InMemoryReplayStore)
    → IsValid s
    → (check_and_record r k e s).0 ≡ ok fresh
    → Holds (check_and_record r k e s).1 k e
unfolding check_and_record
check_and_record-records (err x) k e s v h = cc
check_and_record-records (ok now) k e s v h =
    ground (arith, record_active-records k e (purged now s))

check_and_record-in_time :
    (r : Reading) (k : ReplayKey) (e : ℤ) (s : InMemoryReplayStore)
    → (check_and_record r k e s).0 ≡ ok fresh
    → (now : ℤ) × (r ≡ ok now) × (now ≤ℤ e)
unfolding check_and_record
check_and_record-in_time (err x) k e s h = cc
check_and_record-in_time (ok now) k e s h = (now, refl, ground arith)

-- The in-memory store fulfils the contract of a replay store.
pub store-ReplayContract : ReplayContract store IsValid Holds
store-ReplayContract = record {
  keeps_valid = check_and_record-IsValid;
  records = check_and_record-records;
  remembers = check_and_record-remembers;
  refuses = check_and_record-refuses;
  in_time = check_and_record-in_time;
}
