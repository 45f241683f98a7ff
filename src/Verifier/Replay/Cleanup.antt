-- ===== src/Verifier/Replay/Cleanup.antt =====
-- The cleanup and the lookup of `FileReplayStore` (crates/keylix-verifier/src/replay.rs) beside the file
-- of an unexpired record.
use keylix_community.Prelude.{
  ℕ, ◌+◌, ◌-◌, ◌≡◌, ◌≢◌, ◌⊎◌, refl, sym, Bool, true, false, ◌||◌, not, List, [], ◌∷◌, Option, some,
  Bytes, Result, ok, err, length, arith, ◌^◌, ◌==◌, all, bytes_eq, ℤ, ◌≤ℤ◌, leb_ℤ, ltb_ℤ, inl, inr,
}
use keylix_community.Dpop.Ports.{PortResult}
use keylix_community.Verifier.Directory.{
  IoError, not_found, already_exists, other, Stat, Directory, M, ◌>>◌, return, fail_when, observe,
  lift, dir_metadata, dir_remove_file, list_names,
}
use keylix_community.Verifier.Directory.Laws.{
  File, IsLawfulDirectory, dir_metadata-keeps, dir_remove_file-keeps, list_names-keeps,
  dir_metadata-absent,
}
use keylix_community.Verifier.Replay.Names.{
  instance_lock_name, is_lower_hex, is_pending_name, parse_expiry,
}
use keylix_community.Verifier.Replay.{
  is_own, read_expiry, validate_instance_lock, drop_or_count, count_record, count_kind, count_name,
  count_names, cleanup_and_count, absent_or_fail, settle, is_recorded,
}
use keylix_community.Verifier.Directory.Safe.{
  Any, Safe, safe_bind, safe_lift, safe_step, safe_guard, safe_return, guard-Safe, if-Safe,
  safe_observe, safe_outcome,
}
use keylix_community.Verifier.Replay.Keeps.{Kept, Reads, read_expiry-Safe}

not_found_cases : {A : Type 0} (r : Result IoError A) → (r ≡ err not_found) ⊎ (r ≢ err not_found)
not_found_cases (ok a) = inr (λ h. ground (arith, h))
not_found_cases (err not_found) = inl refl
not_found_cases (err already_exists) = inr (λ h. ground (arith, h))
not_found_cases (err other) = inr (λ h. ground (arith, h))

module _ {S : Type 0} {d : Directory S} {file_at : S → Bytes → Option File}
    (laws : IsLawfulDirectory d file_at) (j : Bytes) (f : File) where
  pub remove-Safe :
      (name : Bytes) → name ≢ j → Safe (Kept file_at j f) (lift (dir_remove_file d name)) Any
  remove-Safe name ne =
      safe_lift (Kept file_at j f) Any (dir_remove_file d name)
        (λ s p. dir_remove_file-keeps laws name s j f (λ same. ne (sym same)) p) (λ s p u h. tt)

  pub validate_instance_lock-Safe : Safe (Kept file_at j f) (validate_instance_lock d) Any
  unfolding validate_instance_lock
  validate_instance_lock-Safe =
      safe_step (Kept file_at j f) Any (dir_metadata d instance_lock_name) _
        (λ s. dir_metadata-keeps laws instance_lock_name s j f)
        (λ entry. guard-Safe (Kept file_at j f) (not (is_own d entry) || not (entry.size == 0)))

  -- Afterwards: the code before the return changes nothing of the record.
  pub then_return :
      {A B : Type 0} (m : M S A) (b : B)
      → Safe (Kept file_at j f) m Any
      → Safe (Kept file_at j f) (m >> return b) Any
  then_return m b safe =
      safe_bind (Kept file_at j f) Any Any m (λ u. return b) safe
        (λ a u. safe_return (Kept file_at j f) Any b tt)

  drop_or_count-Safe :
      (expired : Bool) (name : Bytes) (active : ℕ)
      → (expired ≡ true → name ≢ j)
      → Safe (Kept file_at j f) (drop_or_count d expired name active) Any
  drop_or_count-Safe true name active h =
      then_return (lift (dir_remove_file d name)) active (remove-Safe name (h refl))
  drop_or_count-Safe false name active h =
      then_return (fail_when (active == 2 ^ 64 - 1)) (active + 1)
        (guard-Safe (Kept file_at j f) (active == 2 ^ 64 - 1))

  module _ (now : ℤ) (current : (e : ℤ) → parse_expiry f.bytes ≡ some e → now ≤ℤ e) where
    -- A record that is read as expired is another one.
    expired_other :
        (name : Bytes) (expiry : ℤ) → Reads j f name expiry → ltb_ℤ expiry now ≡ true → name ≢ j
    expired_other name expiry read expired same =
        ground (arith, current expiry (read same), expired)

    count_record-Safe :
        (name : Bytes) (active : ℕ) → Safe (Kept file_at j f) (count_record d now name active) Any
    unfolding count_record
    count_record-Safe name active =
        safe_guard (Kept file_at j f) Any (not (length name == 64) || not (all is_lower_hex name)) _
          (λ shape.
            safe_bind (Kept file_at j f) (Reads j f name) Any (read_expiry d name) _
              (read_expiry-Safe laws j f name)
              (λ expiry read.
                drop_or_count-Safe (ltb_ℤ expiry now) name active (expired_other name expiry read)))

    count_kind-Safe :
        (name : Bytes) (active : ℕ) (marker lock : Bool)
        → Safe (Kept file_at j f) (count_kind d now name active marker lock) Any
    count_kind-Safe name active true lock = safe_return (Kept file_at j f) Any active tt
    count_kind-Safe name active false true =
        then_return (validate_instance_lock d) active validate_instance_lock-Safe
    count_kind-Safe name active false false = count_record-Safe name active

    count_names-Safe :
        (names : List Bytes) (active : ℕ)
        → Safe (Kept file_at j f) (count_names d now names active) Any
    unfolding count_names count_name
    count_names-Safe [] active = safe_return (Kept file_at j f) Any active tt
    count_names-Safe (name ∷ names) active =
        safe_bind (Kept file_at j f) Any Any (count_name d now name active) _
          (safe_guard (Kept file_at j f) Any (not (d.is_text name)) _ (λ text.
            count_kind-Safe name active (is_pending_name name) (bytes_eq name instance_lock_name)))
          (λ active' u. count_names-Safe names active')

    pub cleanup_and_count-Safe : Safe (Kept file_at j f) (cleanup_and_count d now) Any
    unfolding cleanup_and_count
    cleanup_and_count-Safe =
        safe_step (Kept file_at j f) Any (list_names d) _ (λ s. list_names-keeps laws s j f)
          (λ names. count_names-Safe names 0)

    -- The record's own key is found.
    abbrev pub Found : Bytes → Bool → Type 0
    Found name known = name ≡ j → known ≡ true

    there :
        (name : Bytes) (s : S)
        → Kept file_at j f s
        → (dir_metadata d name s).0 ≡ err not_found
        → name ≢ j
    there name s p absent same = ground (arith, dir_metadata-absent laws name s absent, p, same)

    absent-Safe :
        (r : Result IoError Stat)
        → Safe (Kept file_at j f) (absent_or_fail d r) (λ u. r ≡ err not_found)
    absent-Safe (ok stat) s p = p
    absent-Safe (err not_found) s p = (p, refl)
    absent-Safe (err already_exists) s p = p
    absent-Safe (err other) s p = p

    other_name :
        (name : Bytes) (expiry : ℤ) → Reads j f name expiry → leb_ℤ now expiry ≡ false → name ≢ j
    other_name name expiry read expired same = ground (arith, current expiry (read same), expired)

    settle-Safe :
        (name : Bytes) (r : PortResult ℤ)
        → ((expiry : ℤ) → r ≡ ok expiry → Reads j f name expiry)
        → Safe (Kept file_at j f) (settle d now name r) (Found name)
    unfolding settle
    settle-Safe name (ok expiry) read =
        if-Safe (Kept file_at j f) (Found name) (leb_ℤ now expiry) (return true)
          (lift (dir_remove_file d name) >> return false)
          (λ still. safe_return (Kept file_at j f) (Found name) true (λ same. refl))
          (λ expired.
            safe_bind (Kept file_at j f) Any (Found name) (lift (dir_remove_file d name))
              (λ u. return false)
              (remove-Safe name (other_name name expiry (read expiry refl) expired))
              (λ u t.
                safe_return (Kept file_at j f) (Found name) false
                  (λ same. absurd (other_name name expiry (read expiry refl) expired same))))
    settle-Safe name (err e) read =
        safe_bind (Kept file_at j f) (λ r. r ≡ err not_found → name ≢ j) (Found name)
          (observe (dir_metadata d name)) _
          (safe_observe (Kept file_at j f) (λ r. r ≡ err not_found → name ≢ j) (dir_metadata d name)
            (λ s p. (dir_metadata-keeps laws name s j f p, there name s p)))
          (λ r absent.
            safe_bind (Kept file_at j f) (λ u. r ≡ err not_found) (Found name) (absent_or_fail d r)
              (λ u. return false) (absent-Safe r)
              (λ u is_absent.
                safe_return (Kept file_at j f) (Found name) false
                  (λ same. absurd (absent is_absent same))))

    pub is_recorded-Safe :
        (name : Bytes) → Safe (Kept file_at j f) (is_recorded d now name) (Found name)
    unfolding is_recorded
    is_recorded-Safe name =
        safe_bind (Kept file_at j f) (λ r. (b : ℤ) → r ≡ ok b → Reads j f name b) (Found name)
          (observe (read_expiry d name)) _
          (safe_outcome (Kept file_at j f) (Reads j f name) (read_expiry d name)
            (read_expiry-Safe laws j f name))
          (λ r read. settle-Safe name r read)
