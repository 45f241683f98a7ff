-- ===== src/Dpop/State/Replay/Acceptance.antt =====
-- The fresh answers of `InMemoryReplayStore` (crates/keylix-dpop/src/state.rs).
use keylix_community.Prelude.{
  ℕ, suc, ◌<◌, ◌≡◌, ◌↔◌, refl, List, [], ◌∷◌, ok, ℤ, ◌≤ℤ◌, ◌<ℤ◌, leb_ℤ, length, arith,
  if◌then◌else◌, none, some, Option,
}
use keylix_community.Dpop.Ports.{ReplayKey, fresh}
use keylix_community.Dpop.State.Table.{get, get-retain, keep_if}
use keylix_community.Dpop.State.Replay.{
  InMemoryReplayStore, replay_key, purge, record_active, check_and_record,
}
use keylix_community.Dpop.State.Replay.Laws.{IsValid, Holds}

-- The number of entries that have not expired.
unfoldable pub active : ℤ → List (ReplayKey × ℤ) → ℕ
active now [] = 0
active now ((k, e) ∷ entries) =
    let rest = active now entries in if leb_ℤ now e then suc rest else rest

length-purge :
    (now : ℤ) (entries : List (ReplayKey × ℤ)) → length (purge now entries) ≡ active now entries
unfolding purge active
length-purge now [] = refl
length-purge now ((k, e) ∷ entries) = ground (arith, length-purge now entries)

module _ (now : ℤ) (k : ReplayKey) (e : ℤ) (s : InMemoryReplayStore) (v : IsValid s) where
  purged-get : get k (purge now s.entries) ≡ keep_if (leb_ℤ now) (get k s.entries)
  unfolding purge
  purged-get = get-retain (leb_ℤ now) k s.entries v.distinct

  needs :
      (check_and_record (ok now) k e s).0 ≡ ok fresh
      → (now ≤ℤ e) × ((f : ℤ) → Holds s k f → f <ℤ now) × (active now s.entries < s.capacity)
  unfolding check_and_record record_active
  needs h = (
    ground (arith, h),
    λ f held. ground (arith, h, held, purged-get),
    ground (arith, h, length-purge now s.entries),
  )

  absent :
      (o : Option ℤ)
      → get k s.entries ≡ o
      → ((f : ℤ) → Holds s k f → f <ℤ now)
      → keep_if (leb_ℤ now) o ≡ none
  absent none h expired = refl
  absent (some f) h expired = ground (arith, expired f h)

  accepts :
      ((now ≤ℤ e) × ((f : ℤ) → Holds s k f → f <ℤ now) × (active now s.entries < s.capacity))
      → (check_and_record (ok now) k e s).0 ≡ ok fresh
  unfolding check_and_record record_active
  accepts (in_time, expired, room) =
      ground (arith, purged-get, absent (get k s.entries) refl expired, length-purge now s.entries)

-- A valid store accepts a key exactly if the expiry has not passed, no record of the key is active, and
-- fewer records than its capacity are active: neither an expired record nor one of another key stands
-- in the way while there is room.
pub check_and_record_fresh_iff :
    (now : ℤ) (k : ReplayKey) (e : ℤ) (s : InMemoryReplayStore)
    → IsValid s
    → ((check_and_record (ok now) k e s).0 ≡ ok fresh)
      ↔ ((now ≤ℤ e) × ((f : ℤ) → Holds s k f → f <ℤ now) × (active now s.entries < s.capacity))
check_and_record_fresh_iff now k e s v = (needs now k e s v, accepts now k e s v)
