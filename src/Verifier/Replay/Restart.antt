-- ===== src/Verifier/Replay/Restart.antt =====
-- Calls and starts of the durable store: `FileReplayStore::new` of crates/keylix-verifier/src/replay.rs.
use keylix_community.Prelude.{
  ℕ, ◌/◌, ◌≡◌, ◌≢◌, refl, inl, inr, Bool, true, false, not, ◌||◌, ltb, ◌==◌, List, [], ◌∷◌, Option,
  Bytes, Result, ok, err, arith, ℤ, ◌≤ℤ◌,
}
use keylix_community.Dpop.Ports.{Reading, ReplayKey, fresh}
use keylix_community.Dpop.State.Contract.{
  Call, Guarded, NotBefore, later, step-Guarded, refused_while-Guarded,
}
use keylix_community.Verifier.Directory.{
  IoError, already_exists, not_found, other, Directory, return, observe, lift, dir_new_file,
  dir_open_file, dir_metadata, list_names,
}
use keylix_community.Verifier.Directory.Laws.{
  File, IsLawfulDirectory, dir_new_file-keeps, dir_open_file-keeps, list_names-keeps,
  dir_metadata-keeps,
}
use keylix_community.Verifier.Directory.Safe.{
  Any, Safe, safe_bind, safe_lift, safe_step, safe_guard, safe_return, safe_observe, if-Safe,
  safe_state,
}
use keylix_community.Verifier.Replay.Names.{
  name_for, hex, hex_digit, is_pending_name, instance_lock_name,
}
use keylix_community.Verifier.Replay.{
  is_own, validate_instance_lock, cleanup_pending, cleanup_if, cleanup_all_pending,
  cleanup_startup_pending, opened_lock, acquire_instance_lock, open_store, check_and_record,
}
use keylix_community.Verifier.Replay.Keeps.{Kept}
use keylix_community.Verifier.Replay.Cleanup.{remove-Safe, validate_instance_lock-Safe, then_return}
use keylix_community.Verifier.Replay.Contract.{FileHolds, file_store-ReplayContract}

no_dot : (v : ℕ) → (b'.' == hex_digit v) ≡ false
unfolding hex_digit
no_dot v = ground arith

-- No record has the name of a marker.
hex_not_pending : (s : Bytes) → is_pending_name (hex s) ≡ false
unfolding is_pending_name hex hex_digit
hex_not_pending [] = refl
hex_not_pending (b ∷ s) = rw (no_dot (b / 16)) refl

module _ {S : Type 0} {d : Directory S} {file_at : S → Bytes → Option File}
    (laws : IsLawfulDirectory d file_at) (j : Bytes) (f : File) where
  module _ (own : is_pending_name j ≡ false) where
    cleanup_pending-Safe :
        (name : Bytes)
        → is_pending_name name ≡ true
        → Safe (Kept file_at j f) (cleanup_pending d name) Any
    unfolding cleanup_pending
    cleanup_pending-Safe name marker =
        safe_step (Kept file_at j f) Any (dir_metadata d name) _
          (λ s. dir_metadata-keeps laws name s j f)
          (λ entry.
            safe_guard (Kept file_at j f) Any (not (is_own d entry) || ltb 32 entry.size) _
              (λ h. remove-Safe laws j f name (λ same. ground (arith, marker, own, same))))

    cleanup_if-Safe :
        (marker : Bool) (name : Bytes) (removed : Bool)
        → is_pending_name name ≡ marker
        → Safe (Kept file_at j f) (cleanup_if d marker name removed) Any
    cleanup_if-Safe true name removed h =
        then_return laws j f (cleanup_pending d name) true (cleanup_pending-Safe name h)
    cleanup_if-Safe false name removed h = safe_return (Kept file_at j f) Any removed tt

    cleanup_all-Safe :
        (names : List Bytes) (removed : Bool)
        → Safe (Kept file_at j f) (cleanup_all_pending d names removed) Any
    unfolding cleanup_all_pending
    cleanup_all-Safe [] removed = safe_return (Kept file_at j f) Any removed tt
    cleanup_all-Safe (name ∷ names) removed =
        safe_guard (Kept file_at j f) Any (not (d.is_text name)) _ (λ text.
          safe_bind (Kept file_at j f) Any Any (cleanup_if d (is_pending_name name) name removed) _
            (cleanup_if-Safe (is_pending_name name) name removed refl)
            (λ now_removed t. cleanup_all-Safe names now_removed))

    startup-Safe : Safe (Kept file_at j f) (cleanup_startup_pending d) Any
    unfolding cleanup_startup_pending
    startup-Safe =
        safe_step (Kept file_at j f) Any (list_names d) _ (λ s. list_names-keeps laws s j f)
          (λ names.
            safe_bind (Kept file_at j f) Any Any (cleanup_all_pending d names false) _
              (cleanup_all-Safe names false)
              (λ removed t.
                if-Safe (Kept file_at j f) Any removed (lift d.sync_all) (return tt)
                  (λ h.
                    safe_lift (Kept file_at j f) Any d.sync_all (λ s. laws.sync-keeps s j f)
                      (λ s p a h. tt))
                  (λ h. safe_return (Kept file_at j f) Any tt tt)))

    open_lock-Safe : Safe (Kept file_at j f) (lift (dir_open_file d instance_lock_name)) Any
    open_lock-Safe =
        safe_lift (Kept file_at j f) Any (dir_open_file d instance_lock_name)
          (λ s. dir_open_file-keeps laws instance_lock_name s j f) (λ s p a h. tt)

    opened_lock-Safe :
        (r : Result IoError (Unit {0})) → Safe (Kept file_at j f) (opened_lock d r) Any
    opened_lock-Safe (ok u) = open_lock-Safe
    opened_lock-Safe (err already_exists) =
        safe_bind (Kept file_at j f) Any Any (validate_instance_lock d) _
          (validate_instance_lock-Safe laws j f) (λ u t. open_lock-Safe)
    opened_lock-Safe (err not_found) = λ s p. p
    opened_lock-Safe (err other) = λ s p. p

    lock-Safe : Safe (Kept file_at j f) (acquire_instance_lock d) Any
    unfolding acquire_instance_lock
    lock-Safe =
        safe_bind (Kept file_at j f) Any Any (observe (dir_new_file d instance_lock_name)) _
          (safe_observe (Kept file_at j f) Any (dir_new_file d instance_lock_name)
            (λ s p. (dir_new_file-keeps laws instance_lock_name s j f p, tt)))
          (λ created t.
            safe_bind (Kept file_at j f) Any Any (opened_lock d created) _
              (opened_lock-Safe created)
              (λ stat t.
                safe_guard (Kept file_at j f) Any (not (is_own d stat) || not (stat.size == 0)) _
                  (λ h.
                    safe_lift (Kept file_at j f) Any (d.try_lock instance_lock_name)
                      (λ s. laws.lock-keeps instance_lock_name s j f) (λ s p a h. tt))))

    open_store-Safe : (capacity : ℕ) → Safe (Kept file_at j f) (open_store d capacity) Any
    unfolding open_store
    open_store-Safe capacity = safe_guard (Kept file_at j f) Any (capacity == 0) _ (λ h.
        safe_bind (Kept file_at j f) Any Any (acquire_instance_lock d) _ lock-Safe
          (λ u t. startup-Safe))

-- What happens to a replay directory: a call of the store, or a start of the service.
pub data Event : Type 0 where
  check : ℕ → Call → Event
  start : ℕ → Event

module _ {S : Type 0} (d : Directory S) where
  abbrev pub happen : Event → S → S
  happen (check capacity c) s = (check_and_record d capacity c.reading c.key c.expiry s).1
  happen (start capacity) s = (open_store d capacity s).1

  abbrev pub happen_all : List Event → S → S
  happen_all [] s = s
  happen_all (event ∷ events) s = happen_all events (happen event s)

abbrev pub time_after : ℤ → Event → ℤ
time_after t (check capacity c) = later t c.reading
time_after t (start capacity) = t

-- The clock does not go back.
abbrev pub InOrder : ℤ → List Event → Type 0
InOrder t [] = Unit
InOrder t (check capacity c ∷ events) = NotBefore t c.reading × InOrder (later t c.reading) events
InOrder t (start capacity ∷ events) = InOrder t events

abbrev pub time_after_all : ℤ → List Event → ℤ
time_after_all t [] = t
time_after_all t (event ∷ events) = time_after_all (time_after t event) events

module _ {S : Type 0} {d : Directory S} {file_at : S → Bytes → Option File}
    (laws : IsLawfulDirectory d file_at) where
  -- A start of the service, also one that fails, leaves every record on disk.
  pub open_store-FileHolds :
      (capacity : ℕ) (s : S) (k : ReplayKey) (e : ℤ)
      → FileHolds d file_at s k e
      → FileHolds d file_at (open_store d capacity s).1 k e
  unfolding name_for
  open_store-FileHolds capacity s k e (g, at, same) = (
    g,
    safe_state (Kept file_at (name_for k) g) Any (open_store d capacity)
        (open_store-Safe laws (name_for k) g (hex_not_pending k.bytes) capacity) s at,
    same,
  )

  happen_all-Guarded :
      (events : List Event) (s : S) (t : ℤ) (k : ReplayKey) (e : ℤ)
      → InOrder t events
      → Guarded (FileHolds d file_at s k e) t e
      → Guarded (FileHolds d file_at (happen_all d events s) k e) (time_after_all t events) e
  happen_all-Guarded [] s t k e o g = g
  happen_all-Guarded (check capacity c ∷ events) s t k e o g =
      happen_all-Guarded events _ (later t c.reading) k e o.1 (
        step-Guarded (file_store-ReplayContract laws capacity) c.reading c.key c.expiry s t k e tt
          o.0 g)
  happen_all-Guarded (start capacity ∷ events) s t k e o (inl held) =
      happen_all-Guarded events _ t k e o (inl (open_store-FileHolds capacity s k e held))
  happen_all-Guarded (start capacity ∷ events) s t k e o (inr past) =
      happen_all-Guarded events _ t k e o (inr past)

  -- Over a lawful directory, a key that the durable store accepted is not accepted again with the same
  -- expiry or an earlier one, whatever calls of the store and starts of the service come between, with
  -- any capacities, as long as the clock does not go back.
  pub refused_after_restarts :
      (t : ℤ) (capacity later_capacity : ℕ) (k : ReplayKey) (e e' : ℤ) (s : S) (events : List Event)
      (r : Reading)
      → (check_and_record d capacity (ok t) k e s).0 ≡ ok fresh
      → InOrder t events
      → NotBefore (time_after_all t events) r
      → e' ≤ℤ e
      → (check_and_record d later_capacity r k e'
          (happen_all d events (check_and_record d capacity (ok t) k e s).1)).0
        ≢ ok fresh
  refused_after_restarts t capacity later_capacity k e e' s events r accepted o last q =
      let held = (file_store-ReplayContract laws capacity).records (ok t) k e s tt accepted in
      refused_while-Guarded (file_store-ReplayContract laws later_capacity) r k e e' _
        (time_after_all t events) tt q last (happen_all-Guarded events _ t k e o (inl held))
